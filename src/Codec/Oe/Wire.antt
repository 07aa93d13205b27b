-- ===== src/Codec/Oe/Wire.antt =====
-- The packed wire structs of src/libs/networking/oe/types/OETypes.h as bytes.
use slipstream_volume_aware.Prelude.{
  ℕ, ◌≡◌, List, [], ◌∷◌, arith, length, take, drop, take-length_append, drop-length_append,
  length-append,
}
use slipstream_volume_aware.Prelude.Words.{to_bytes, IsByte}
use slipstream_volume_aware.Prelude.Outcome.{ok}
use slipstream_volume_aware.Codec.Frame.{pack, word, word-to_bytes, skip-to_bytes}
use slipstream_volume_aware.Codec.Oe.{
  NewOrderBody, ExecReportBody, NewOrder, ExecReport, IsNewOrder, IsExecReport, OrderStatus,
  OrderSide, ExecStatus, RejectReason, order_status_to_char, order_status_from_char,
  order_side_to_char, order_side_from_char, exec_status_to_num, exec_status_from_num,
  reject_reason_to_num, reject_reason_from_num, to_new_order, new_order_body, to_exec_report,
  exec_report_body,
}

unfoldable pub new_order_bytes : NewOrderBody → List ℕ
new_order_bytes b = pack (
    to_bytes 8 b.client_order_id
    ∷ b.symbol
    ∷ to_bytes 1 b.status
    ∷ to_bytes 8 b.ts_ns
    ∷ to_bytes 8 b.trade_id
    ∷ to_bytes 1 b.side
    ∷ to_bytes 4 b.qty
    ∷ to_bytes 8 b.limit_px
    ∷ [])

unfoldable pub new_order_of : List ℕ → NewOrderBody
new_order_of bs =
    let r1 = drop 8 bs in
    let r2 = drop 12 r1 in
    let r3 = drop 1 r2 in
    let r4 = drop 8 r3 in
    let r5 = drop 8 r4 in
    let r6 = drop 1 r5 in
    let r7 = drop 4 r6 in
    record {
      client_order_id = word 8 bs;
      symbol = take 12 r1;
      status = word 1 r2;
      ts_ns = word 8 r3;
      trade_id = word 8 r4;
      side = word 1 r5;
      qty = word 4 r6;
      limit_px = word 8 r7;
    }

unfoldable pub exec_report_bytes : ExecReportBody → List ℕ
exec_report_bytes b = pack (
    to_bytes 8 b.client_order_id
    ∷ to_bytes 8 b.ts_ns
    ∷ to_bytes 1 b.status
    ∷ to_bytes 4 b.filled_qty
    ∷ to_bytes 8 b.avg_px
    ∷ to_bytes 1 b.reason_code
    ∷ [])

unfoldable pub exec_report_of : List ℕ → ExecReportBody
exec_report_of bs =
    let r1 = drop 8 bs in
    let r2 = drop 8 r1 in
    let r3 = drop 1 r2 in
    let r4 = drop 4 r3 in
    let r5 = drop 8 r4 in
    record {
      client_order_id = word 8 bs;
      ts_ns = word 8 r1;
      status = word 1 r2;
      filled_qty = word 4 r3;
      avg_px = word 8 r4;
      reason_code = word 1 r5;
    }

pub length-new_order_bytes :
    (b : NewOrderBody) → length b.symbol ≡ 12 → length (new_order_bytes b) ≡ 50
unfolding new_order_bytes to_bytes
length-new_order_bytes b h = omega (arith, length-append {0})

status_back : (s : OrderStatus) → order_status_from_char (order_status_to_char s) ≡ ok s
unfolding order_status_from_char order_status_to_char
status_back s = ground arith

status-IsByte : (s : OrderStatus) → IsByte (order_status_to_char s)
unfolding order_status_to_char
status-IsByte s = ground arith

side_back : (s : OrderSide) → order_side_from_char (order_side_to_char s) ≡ ok s
unfolding order_side_from_char order_side_to_char
side_back s = ground arith

side-IsByte : (s : OrderSide) → IsByte (order_side_to_char s)
unfolding order_side_to_char
side-IsByte s = ground arith

exec_back : (s : ExecStatus) → exec_status_from_num (exec_status_to_num s) ≡ ok s
unfolding exec_status_from_num exec_status_to_num
exec_back s = ground arith

exec-IsByte : (s : ExecStatus) → IsByte (exec_status_to_num s)
unfolding exec_status_to_num
exec-IsByte s = ground arith

reason_back : (r : RejectReason) → reject_reason_from_num (reject_reason_to_num r) ≡ ok r
unfolding reject_reason_from_num reject_reason_to_num
reason_back r = ground arith

reason-IsByte : (r : RejectReason) → IsByte (reject_reason_to_num r)
unfolding reject_reason_to_num
reason-IsByte r = ground arith

new_order_of-new_order_bytes :
    (o : NewOrder)
    → IsNewOrder o
    → new_order_of (new_order_bytes (new_order_body o)) ≡ new_order_body o
unfolding new_order_of new_order_bytes new_order_body
new_order_of-new_order_bytes o v = simp (
  take-length_append 12 o.symbol _ v.symbol_in,
  drop-length_append 12 o.symbol _ v.symbol_in,
  skip-to_bytes,
  word-to_bytes 8 o.client_order_id _ v.id_in,
  word-to_bytes 1 (order_status_to_char o.status) _ (status-IsByte o.status),
  word-to_bytes 8 o.ts_ns _ v.ts_in,
  word-to_bytes 8 o.trade_id _ v.trade_in,
  word-to_bytes 1 (order_side_to_char o.side) _ (side-IsByte o.side),
  word-to_bytes 4 o.qty _ v.qty_in,
  word-to_bytes 8 o.limit_px _ v.limit_in,
)

exec_report_of-exec_report_bytes :
    (r : ExecReport)
    → IsExecReport r
    → exec_report_of (exec_report_bytes (exec_report_body r)) ≡ exec_report_body r
unfolding exec_report_of exec_report_bytes exec_report_body
exec_report_of-exec_report_bytes r v = simp (
  skip-to_bytes,
  word-to_bytes 8 r.client_order_id _ v.id_in,
  word-to_bytes 8 r.ts_ns _ v.ts_in,
  word-to_bytes 1 (exec_status_to_num r.status) _ (exec-IsByte r.status),
  word-to_bytes 4 r.filled_qty _ v.filled_in,
  word-to_bytes 8 r.avg_px _ v.avg_in,
  word-to_bytes 1 (reject_reason_to_num r.reason_code) _ (reason-IsByte r.reason_code),
)

-- The bytes of an order's body give the order back.
pub new_order_back :
    (o : NewOrder)
    → IsNewOrder o
    → to_new_order (new_order_of (new_order_bytes (new_order_body o))) ≡ ok o
unfolding to_new_order
new_order_back o v =
    rw (new_order_of-new_order_bytes o v)
      (unfold new_order_body in rw (status_back o.status, side_back o.side))

pub exec_report_back :
    (r : ExecReport)
    → IsExecReport r
    → to_exec_report (exec_report_of (exec_report_bytes (exec_report_body r))) ≡ ok r
unfolding to_exec_report
exec_report_back r v =
    rw (exec_report_of-exec_report_bytes r v)
      (unfold exec_report_body in rw (exec_back r.status, reason_back r.reason_code))

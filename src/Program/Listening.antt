-- ===== src/Program/Listening.antt =====
-- src/slipstream/main.cpp: the two listeners and the two connections that main makes first, and their
-- destructors, which run last. What the system answers to each call is an argument.
use slipstream_volume_aware.Prelude.{
  ℕ, ◌+◌, ◌≤◌, ◌≡◌, ◌⊎◌, inl, inr, refl, sym, ◌∙◌, append_assoc, length-append, ◌++◌, List, [], ◌∷◌,
  length, Bool, true, false, Option, none, some, arith,
}
use slipstream_volume_aware.Prelude.Outcome.{Outcome, ok, err, Failure, runtime_error, logic_error}
use slipstream_volume_aware.Sockets.{
  ClientConnection, ServerConnection, Accepted, accept_failed, accepted, eintr, eagain, other_errno,
  listen_on, accept, destroy, destroy_server, close_fd,
}

-- What the system answers to a listener: about its address, its socket, `bind`, `listen`, and its calls
-- of `accept`.
pub record Endpoint : Type 0 where
  pub address : Bool
  pub socket : Option ℕ
  pub bound : Bool
  pub listening : Bool
  pub accepts : List Accepted

pub record Connections : Type 0 where
  pub md_listener : ServerConnection
  pub oe_listener : ServerConnection
  pub md_client : ClientConnection
  pub oe_client : ClientConnection

-- The descriptors that are open once a connection is accepted.
abbrev pub opened : Option ℕ → List ℕ → List ℕ
opened none open_fds = open_fds
opened (some d) open_fds = d ∷ open_fds

-- Where main stands after these declarations, with the open descriptors: it waits in `accept`, or has
-- thrown, or has its connections.
abbrev pub Reached : Type 0
Reached = Option (Outcome Connections) × List ℕ

unfoldable pub accept_oe :
    ServerConnection
    → ServerConnection
    → ClientConnection
    → Option (Outcome ClientConnection)
    → List ℕ
    → Reached
accept_oe md_listener oe_listener md_client none open_fds = (none, open_fds)
accept_oe md_listener oe_listener md_client (some (err e)) open_fds = (some (err e), open_fds)
accept_oe md_listener oe_listener md_client (some (ok c)) open_fds = (
  some (
      ok record {
        md_listener = md_listener;
        oe_listener = oe_listener;
        md_client = md_client;
        oe_client = c;
      }),
  opened c.fd open_fds,
)

unfoldable pub accept_md :
    ServerConnection
    → ServerConnection
    → Option (Outcome ClientConnection)
    → (oe : Option (Outcome ClientConnection)) → List ℕ
    → Reached
unfolding accept_oe
accept_md md_listener oe_listener none oe open_fds = (none, open_fds)
accept_md md_listener oe_listener (some (err e)) oe open_fds = (some (err e), open_fds)
accept_md md_listener oe_listener (some (ok c)) oe open_fds =
    accept_oe md_listener oe_listener c oe (opened c.fd open_fds)

unfoldable pub listen_oe :
    ServerConnection → Outcome ServerConnection × List ℕ → Endpoint → Endpoint → Reached
unfolding accept_md
listen_oe md_listener (err e, open_fds) md oe = (some (err e), open_fds)
listen_oe md_listener (ok l, open_fds) md oe =
    accept_md md_listener l (accept md.accepts) (accept oe.accepts) open_fds

unfoldable pub listen_md : Outcome ServerConnection × List ℕ → Endpoint → Endpoint → Reached
unfolding listen_oe
listen_md (err e, open_fds) md oe = (some (err e), open_fds)
listen_md (ok l, open_fds) md oe =
    listen_oe l (listen_on open_fds oe.address oe.socket oe.bound oe.listening) md oe

unfoldable pub connections : List ℕ → (md oe : Endpoint) → Reached
unfolding listen_md
connections open_fds md oe =
    listen_md (listen_on open_fds md.address md.socket md.bound md.listening) md oe

-- The destructors, in the order in which they run at the end of main.
unfoldable pub close_connections : Connections → List ℕ → List ℕ
close_connections c open_fds =
    destroy_server c.md_listener
      (destroy_server c.oe_listener (destroy c.md_client (destroy c.oe_client open_fds)))

-- The failures of a listener and of `accept`.
abbrev pub Thrown : Failure → Type 0
Thrown e = (e ≡ runtime_error) ⊎ (e ≡ logic_error)

-- What was open is still open, below at most `n` more descriptors.
abbrev pub Grown : ℕ → List ℕ → List ℕ → Type 0
Grown n before after = (more : List ℕ) × (after ≡ more ++ before) × (length more ≤ n)

abbrev Listens : List ℕ → Outcome ServerConnection × List ℕ → Type 0
Listens open_fds (ok l, after) = (d : ℕ) × (l ≡ record { fd = some d }) × (after ≡ d ∷ open_fds)
Listens open_fds (err e, after) = Thrown e × Grown 1 open_fds after

listen_on-Listens :
    (open_fds : List ℕ) (address : Bool) (socket : Option ℕ) (bound listening : Bool)
    → Listens open_fds (listen_on open_fds address socket bound listening)
unfolding listen_on
listen_on-Listens open_fds false socket bound listening = (inl refl, ([], refl, omega arith))
listen_on-Listens open_fds true none bound listening = (inr refl, ([], refl, omega arith))
listen_on-Listens open_fds true (some d) false listening = (inl refl, (d ∷ [], refl, omega arith))
listen_on-Listens open_fds true (some d) true false = (inl refl, (d ∷ [], refl, omega arith))
listen_on-Listens open_fds true (some d) true true = (d, refl, refl)

abbrev Accepts : Option (Outcome ClientConnection) → Type 0
Accepts none = Unit
Accepts (some (err e)) = Thrown e
Accepts (some (ok c)) = (d : ℕ) × (c ≡ record { fd = some d })

accept-Accepts : (rs : List Accepted) → Accepts (accept rs)
unfolding accept
accept-Accepts [] = tt
accept-Accepts (accept_failed eintr ∷ rs) = accept-Accepts rs
accept-Accepts (accept_failed eagain ∷ rs) = inl refl
accept-Accepts (accept_failed other_errno ∷ rs) = inl refl
accept-Accepts (accepted d ∷ rs) = (d, refl)

-- Main has its two listeners and its two connections, whose four destructors close the four
-- descriptors that were opened and no other; or it has thrown, a `runtime_error` or a `logic_error`, or
-- still waits in `accept`, with three descriptors opened at most.
abbrev pub Reaches : List ℕ → Reached → Type 0
Reaches open_fds (none, after) = Grown 3 open_fds after
Reaches open_fds (some (err e), after) = Thrown e × Grown 3 open_fds after
Reaches open_fds (some (ok c), after) =
    (close_connections c after ≡ open_fds) × (length after ≡ length open_fds + 4)

-- The descriptors of both listeners, in front of those that were open.
accept_oe-Reaches :
    (open_fds : List ℕ) (a b d : ℕ) (oe : Option (Outcome ClientConnection))
    → Accepts oe
    → Reaches open_fds (
        accept_oe
          (record { fd = some a })
          (record { fd = some b })
          (record { fd = some d })
          oe
          (d ∷ b ∷ a ∷ open_fds))
unfolding accept_oe close_connections destroy destroy_server close_fd
accept_oe-Reaches open_fds a b d none h = (d ∷ b ∷ a ∷ [], refl, omega arith)
accept_oe-Reaches open_fds a b d (some (err e)) h = (h, (d ∷ b ∷ a ∷ [], refl, omega arith))
accept_oe-Reaches open_fds a b d (some (ok c)) (f, k) = rw k (ground arith, omega arith)

accept_md-Reaches :
    (open_fds : List ℕ) (a b : ℕ) (md oe : Option (Outcome ClientConnection))
    → Accepts md
    → Accepts oe
    → Reaches open_fds
        (accept_md (record { fd = some a }) (record { fd = some b }) md oe (b ∷ a ∷ open_fds))
unfolding accept_md
accept_md-Reaches open_fds a b none oe h k = (b ∷ a ∷ [], refl, omega arith)
accept_md-Reaches open_fds a b (some (err e)) oe h k = (h, (b ∷ a ∷ [], refl, omega arith))
accept_md-Reaches open_fds a b (some (ok c)) oe (d, e) k =
    rw e (accept_oe-Reaches open_fds a b d oe k)

listen_oe-Reaches :
    (open_fds : List ℕ) (a : ℕ) (second : Outcome ServerConnection × List ℕ) (md oe : Endpoint)
    → Listens (a ∷ open_fds) second
    → Reaches open_fds (listen_oe (record { fd = some a }) second md oe)
unfolding listen_oe
listen_oe-Reaches open_fds a (err e, after) md oe (h, (more, k, n)) = (
  h,
  (
    more ++ (a ∷ []),
    k ∙ sym (append_assoc more (a ∷ []) open_fds),
    omega (arith, n, length-append more (a ∷ [])),
  ),
)
listen_oe-Reaches open_fds a (ok l, after) md oe (b, e, k) =
    rw (e, k)
      (accept_md-Reaches open_fds a b (accept md.accepts) (accept oe.accepts)
        (accept-Accepts md.accepts) (accept-Accepts oe.accepts))

listen_md-Reaches :
    (open_fds : List ℕ) (first : Outcome ServerConnection × List ℕ) (md oe : Endpoint)
    → Listens open_fds first
    → Reaches open_fds (listen_md first md oe)
unfolding listen_md
listen_md-Reaches open_fds (err e, after) md oe (h, (more, k, n)) = (h, (more, k, omega (arith, n)))
listen_md-Reaches open_fds (ok l, after) md oe (a, e, k) =
    rw (e, k)
      (listen_oe-Reaches open_fds a
        (listen_on (a ∷ open_fds) oe.address oe.socket oe.bound oe.listening) md oe
        (listen_on-Listens (a ∷ open_fds) oe.address oe.socket oe.bound oe.listening))

-- Whatever the system answers to main's listeners and to their calls of `accept`, interrupted or not:
-- main has two listeners and two connections, and their destructors leave open just what was open
-- before; or it has thrown a `runtime_error` or a `logic_error`, or still waits in `accept`, and has
-- opened at most three descriptors, below which what was open is still open.
pub connections-Reaches :
    (open_fds : List ℕ) (md oe : Endpoint) → Reaches open_fds (connections open_fds md oe)
unfolding connections
connections-Reaches open_fds md oe =
    listen_md-Reaches open_fds (listen_on open_fds md.address md.socket md.bound md.listening) md oe
      (listen_on-Listens open_fds md.address md.socket md.bound md.listening)

-- ===== src/Sockets/Ownership.antt =====
-- Which object has which descriptor, over any history of connections that are made, accepted, moved,
-- assigned and destroyed. `objects` is the memory of the program, an object at an address.
use slipstream_volume_aware.Prelude.{
  ℕ, ◌≡◌, ◌≢◌, ◌⊎◌, inl, inr, refl, sym, ap, ◌∙◌, List, [], ◌∷◌, true, false, ◌==◌, if◌then◌else◌,
  Option, none, some, arith, Bool-cases,
}
use mathlib.Core.Path.{subst}
use slipstream_volume_aware.Sockets.{
  ClientConnection, connect, of_fd, close_fd, free, move_from, move_construct, move_assign, destroy,
}

-- Among the descriptors that are open.
abbrev pub Open : ℕ → List ℕ → Type 0
Open d [] = ⊥
Open d (e ∷ es) = (d ≡ e) ⊎ Open d es

pub record Process : Type 0 where
  pub objects : ℕ → ClientConnection
  pub open_fds : List ℕ

abbrev pub put : (ℕ → ClientConnection) → ℕ → ClientConnection → ℕ → ClientConnection
put f i c k = if k == i then c else f k

-- An address where there is no object, or one without a descriptor.
abbrev pub Vacant : Process → ℕ → Type 0
Vacant p i = (p.objects i).fd ≡ none

-- One operation. The system gives a descriptor that is not open.
pub data Step : Process → Process → Type 0 where
  connected :
      {p : Process} (i d : ℕ)
      → Vacant p i
      → ¬ Open d p.open_fds
      → Step p (record {
        objects = put p.objects i (record { fd = some d });
        open_fds = (connect p.open_fds true (some d) true).1;
      })
  refused :
      {p : Process} (d : ℕ)
      → ¬ Open d p.open_fds
      → Step p (record p { open_fds = (connect p.open_fds true (some d) false).1 })
  accepted :
      {p : Process} (i d : ℕ)
      → Vacant p i
      → ¬ Open d p.open_fds
      → Step p (record { objects = put p.objects i (of_fd d); open_fds = d ∷ p.open_fds })
  moved :
      {p : Process} (i j : ℕ)
      → Vacant p i
      → i ≢ j
      → Step p (record p {
        objects =
            put
              (put p.objects i (move_construct (p.objects j)).0)
              j
              (move_construct (p.objects j)).1;
      })
  assigned :
      {p : Process} (i j : ℕ)
      → i ≢ j
      → Step p (record {
        objects =
            put
              (put p.objects i (move_assign (p.objects i) (p.objects j) p.open_fds).0.0)
              j
              (move_assign (p.objects i) (p.objects j) p.open_fds).0.1;
        open_fds = (move_assign (p.objects i) (p.objects j) p.open_fds).1;
      })
  destroyed :
      {p : Process} (i : ℕ)
      → Step p (record {
        objects = put p.objects i (record { fd = none });
        open_fds = destroy (p.objects i) p.open_fds;
      })

pub data Steps (p : Process) : Process → Type 0 where
  start : Steps p p
  then_ : {q r : Process} → Steps p q → Step q r → Steps p r

-- Each object has a descriptor of its own, or none, and those that objects have are open.
pub record IsOwned (p : Process) : Type 0 where
  pub is_open : (i d : ℕ) → (p.objects i).fd ≡ some d → Open d p.open_fds
  pub alone : (i j d : ℕ) → (p.objects i).fd ≡ some d → (p.objects j).fd ≡ some d → i ≡ j

close_fd-other : (d e : ℕ) (ds : List ℕ) → d ≢ e → Open d ds → Open d (close_fd (some e) ds)
unfolding close_fd
close_fd-other d e [] ne h = elim h [ ]
close_fd-other d e (x ∷ ds) ne (inl h) = ground (arith, ne, h)
close_fd-other d e (x ∷ ds) ne (inr h) = ground (arith, ne, h, close_fd-other d e ds ne h)

-- What has a descriptor after a write to the memory.
put-cases :
    (f : ℕ → ClientConnection) (i : ℕ) (c : ClientConnection) (k d : ℕ)
    → (put f i c k).fd ≡ some d
    → ((k ≡ i) × (c.fd ≡ some d)) ⊎ ((k ≢ i) × ((f k).fd ≡ some d))
put-cases f i c k d h = elim (Bool-cases (k == i)) [
  | inl y ↦ let e : k ≡ i = ground (arith, y) in inl (e, cc (h, y))
  | inr n ↦ let e : k ≢ i = ground (arith, n) in inr (e, cc (h, n))
]

-- The descriptors of the objects other than `i` are as they were, or taken over.
new-IsOwned :
    (p : Process) (i d : ℕ)
    → ¬ Open d p.open_fds
    → IsOwned p
    → IsOwned
        (record { objects = put p.objects i (record { fd = some d }); open_fds = d ∷ p.open_fds })
new-IsOwned p i d fresh o = record {
  is_open = λ k e h. elim (put-cases p.objects i (record { fd = some d }) k e h) [
    | inl x ↦ inl (cc x.1)
    | inr y ↦ inr (o.is_open k e y.1)
  ];
  alone = λ k l e h g. elim (put-cases p.objects i (record { fd = some d }) k e h) [
    | inl x ↦ elim (put-cases p.objects i (record { fd = some d }) l e g) [
      | inl y ↦ x.0 ∙ sym y.0
      | inr y ↦ absurd (fresh (subst (λ n. Open n p.open_fds) (cc x.1) (o.is_open l e y.1)))
    ]
    | inr x ↦ elim (put-cases p.objects i (record { fd = some d }) l e g) [
      | inl y ↦ absurd (fresh (subst (λ n. Open n p.open_fds) (cc y.1) (o.is_open k e x.1)))
      | inr y ↦ o.alone k l e x.1 y.1
    ]
  ];
}

module _ (p : Process) (o : IsOwned p) where
  -- Closing the descriptor of one object leaves those of the others open.
  closed-Open :
      (i k d : ℕ) (x : Option ℕ)
      → (p.objects i).fd ≡ x
      → k ≢ i
      → (p.objects k).fd ≡ some d
      → Open d (close_fd x p.open_fds)
  unfolding close_fd
  closed-Open i k d none e ne h = o.is_open k d h
  closed-Open i k d (some e') e ne h =
      close_fd-other d e' p.open_fds (λ s. ne (o.alone k i d h (e ∙ ap (λ x. some x) (sym s))))
        (o.is_open k d h)

  -- An object that gives up its descriptor.
  vacated-IsOwned :
      (i : ℕ)
      → IsOwned (record {
        objects = put p.objects i (record { fd = none });
        open_fds = close_fd (p.objects i).fd p.open_fds;
      })
  vacated-IsOwned i = record {
    is_open = λ k d h. elim (put-cases p.objects i (record { fd = none }) k d h) [
      | inl x ↦ absurd (cc x.1)
      | inr y ↦ closed-Open i k d (p.objects i).fd refl y.0 y.1
    ];
    alone = λ k l d h g. elim (put-cases p.objects i (record { fd = none }) k d h) [
      | inl x ↦ absurd (cc x.1)
      | inr x ↦ elim (put-cases p.objects i (record { fd = none }) l d g) [
        | inl y ↦ absurd (cc y.1)
        | inr y ↦ o.alone k l d x.1 y.1
      ]
    ];
  }

  module _ (i j : ℕ) (ne : i ≢ j) where
    taken_over : ℕ → ClientConnection
    taken_over = put (put p.objects i (record { fd = (p.objects j).fd })) j (record { fd = none })

    -- Who had a descriptor before `i` took over that of `j`.
    Origin : (k d : ℕ) → Type 0
    Origin k d =
        (k0 : ℕ) × (k0 ≢ i)
        × ((p.objects k0).fd ≡ some d)
        × (((k ≡ i) × (k0 ≡ j)) ⊎ ((k ≡ k0) × (k ≢ j)))

    taken_over-Origin : (k d : ℕ) → (taken_over k).fd ≡ some d → Origin k d
    unfolding taken_over Origin
    taken_over-Origin k d h =
        let inner = put p.objects i (record { fd = (p.objects j).fd }) in
        elim (put-cases inner j (record { fd = none }) k d h) [
          | inl x ↦ absurd (cc x.1)
          | inr y ↦ elim (put-cases p.objects i (record { fd = (p.objects j).fd }) k d y.1) [
            | inl x ↦ (j, (λ e. ne (sym e)), x.1, inl (x.0, refl))
            | inr z ↦ (k, z.0, z.1, inr (refl, y.0))
          ]
        ]

    taken_over-IsOwned :
        (open_fds : List ℕ)
        → ((k d : ℕ) → k ≢ i → (p.objects k).fd ≡ some d → Open d open_fds)
        → IsOwned (record { objects = taken_over; open_fds = open_fds })
    unfolding Origin
    taken_over-IsOwned open_fds stays = record {
      is_open =
          λ k d h. let (k0, other, had, which) = taken_over-Origin k d h in stays k0 d other had;
      alone = λ k l d h g.
          let (k0, other, had, which) = taken_over-Origin k d h in
          let (l0, other', had', which') = taken_over-Origin l d g in
          let same = o.alone k0 l0 d had had' in ground (arith, same, which, which');
    }

step-IsOwned : {p q : Process} → Step p q → IsOwned p → IsOwned q
unfolding connect of_fd free move_from move_construct move_assign destroy taken_over
step-IsOwned {p = p} (connected i d v fresh) o = new-IsOwned p i d fresh o
step-IsOwned {p = p} (refused d fresh) o = record {
  is_open = λ k e h. inr (o.is_open k e h);
  alone = o.alone;
}
step-IsOwned {p = p} (accepted i d v fresh) o = new-IsOwned p i d fresh o
step-IsOwned {p = p} (moved i j v ne) o =
    taken_over-IsOwned p o i j ne p.open_fds (λ k d other h. o.is_open k d h)
step-IsOwned {p = p} (assigned i j ne) o =
    taken_over-IsOwned p o i j ne (close_fd (p.objects i).fd p.open_fds)
      (λ k d other h. closed-Open p o i k d (p.objects i).fd refl other h)
step-IsOwned {p = p} (destroyed i) o = vacated-IsOwned p o i

-- Over any history of connections that are made, refused, accepted, moved, assigned and destroyed, in
-- a process that begins with no connection: no two objects have one descriptor, and what an object
-- has is open. So no `close` of an object closes the descriptor of another, or one that is closed.
pub Steps-IsOwned : (p q : Process) → ((i : ℕ) → Vacant p i) → Steps p q → IsOwned q
Steps-IsOwned p q none_yet start = record {
  is_open = λ i d h. absurd (cc (none_yet i, h));
  alone = λ i j d h g. absurd (cc (none_yet i, h));
}
Steps-IsOwned p q none_yet (then_ {q = r} more s) = step-IsOwned s (Steps-IsOwned p r none_yet more)

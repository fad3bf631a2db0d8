-- ===== src/Gateway/Registry.antt =====
-- backend/app/ws/manager.py: the registry after a connection comes or goes.
use uvipystock.Prelude.{
  ℕ, ◌==◌, ◌<◌, ◌≡◌, refl, sym, subst, ◌∙◌, arith, true, false, List, [], ◌∷◌, contains, length,
  All, Bool-cases, inl, inr, ==→eq,
}
use uvipystock.Gateway.Manager.{Entry, add, discard, connect, is_empty_set, disconnect, sockets_of}

abbrev pub Fresh : ℕ → List Entry → Type 0
Fresh key es = All (λ (e : Entry). (e.key == key) ≡ false) es

-- A key stands once, and with sockets.
abbrev pub IsProper : List Entry → Type 0
IsProper [] = Unit
IsProper (e ∷ es) = Fresh e.key es × (0 < length e.sockets) × IsProper es

sockets_of-Fresh : (key : ℕ) (es : List Entry) → Fresh key es → sockets_of key es ≡ []
unfolding sockets_of
sockets_of-Fresh key [] h = refl
sockets_of-Fresh key (e ∷ es) h = rw (h.0) (sockets_of-Fresh key es h.1)

Fresh-disconnect :
    (k socket key : ℕ) (es : List Entry) → Fresh k es → Fresh k (disconnect socket key es)
unfolding disconnect
Fresh-disconnect k socket key [] h = tt
Fresh-disconnect k socket key (e ∷ es) h = elim (Bool-cases (e.key == key)) [
  | inl here ↦ elim (Bool-cases (is_empty_set (discard socket e.sockets))) [
    | inl gone ↦ rw (here, gone) (h.1)
    | inr left ↦ rw (here, left) h
  ]
  | inr there ↦ rw there (h.0, Fresh-disconnect k socket key es h.1)
]

not_empty : (ss : List ℕ) → is_empty_set ss ≡ false → 0 < length ss
not_empty [] h = absurd (cc)
not_empty (s ∷ ss) h = omega arith

empty_set : (ss : List ℕ) → is_empty_set ss ≡ true → ss ≡ []
empty_set [] h = refl
empty_set (s ∷ ss) h = absurd (cc)

pub disconnect-IsProper :
    (socket key : ℕ) (es : List Entry) → IsProper es → IsProper (disconnect socket key es)
unfolding disconnect
disconnect-IsProper socket key [] h = tt
disconnect-IsProper socket key (e ∷ es) h = elim (Bool-cases (e.key == key)) [
  | inl here ↦ elim (Bool-cases (is_empty_set (discard socket e.sockets))) [
    | inl gone ↦ rw (here, gone) (h.2)
    | inr left ↦ rw (here, left) (h.0, not_empty _ left, h.2)
  ]
  | inr there ↦
      rw there
        (Fresh-disconnect e.key socket key es h.0, h.1, disconnect-IsProper socket key es h.2)
]

-- The sockets of the key lose the one that goes.
pub sockets_of-disconnect :
    (socket key : ℕ) (es : List Entry)
    → IsProper es
    → sockets_of key (disconnect socket key es) ≡ discard socket (sockets_of key es)
unfolding sockets_of disconnect discard
sockets_of-disconnect socket key [] h = refl
sockets_of-disconnect socket key (e ∷ es) h = elim (Bool-cases (e.key == key)) [
  | inl here ↦ elim (Bool-cases (is_empty_set (discard socket e.sockets))) [
    | inl gone ↦
        rw (here, gone)
          (sockets_of-Fresh key es (subst (λ (k : ℕ). Fresh k es) (==→eq _ _ here) (h.0))
            ∙ sym (empty_set _ gone))
    | inr left ↦ rw (here, left) (rw here refl)
  ]
  | inr there ↦ rw there (rw there (sockets_of-disconnect socket key es h.2))
]

-- The other keys keep theirs.
pub sockets_of-disconnect_other :
    (socket key k : ℕ) (es : List Entry)
    → (key == k) ≡ false
    → sockets_of k (disconnect socket key es) ≡ sockets_of k es
unfolding sockets_of disconnect
sockets_of-disconnect_other socket key k [] d = refl
sockets_of-disconnect_other socket key k (e ∷ es) d = elim (Bool-cases (e.key == key)) [
  | inl here ↦
      let other : (e.key == k) ≡ false = ground (arith, here, d) in
      elim (Bool-cases (is_empty_set (discard socket e.sockets))) [
        | inl gone ↦ rw (here, gone) (rw other refl)
        | inr left ↦ rw (here, left) (rw other refl)
      ]
  | inr there ↦ rw there (elim (Bool-cases (e.key == k)) [
    | inl same ↦ rw same refl
    | inr differs ↦ rw differs (sockets_of-disconnect_other socket key k es d)
  ])
]

add-some : (socket : ℕ) (ss : List ℕ) → 0 < length (add socket ss)
unfolding add
add-some socket [] = omega arith
add-some socket (s ∷ ss) = elim (Bool-cases (contains socket (s ∷ ss))) [
  | inl there ↦ rw there (omega arith)
  | inr new_one ↦ rw new_one (omega arith)
]

Fresh-connect :
    (k socket key : ℕ) (es : List Entry)
    → (key == k) ≡ false
    → Fresh k es
    → Fresh k (connect socket key es)
unfolding connect
Fresh-connect k socket key [] d h = (d, tt)
Fresh-connect k socket key (e ∷ es) d h = elim (Bool-cases (e.key == key)) [
  | inl here ↦ rw here h
  | inr there ↦ rw there (h.0, Fresh-connect k socket key es d h.1)
]

pub connect-IsProper :
    (socket key : ℕ) (es : List Entry) → IsProper es → IsProper (connect socket key es)
unfolding connect
connect-IsProper socket key [] h = (tt, add-some socket [], tt)
connect-IsProper socket key (e ∷ es) h = elim (Bool-cases (e.key == key)) [
  | inl here ↦ rw here (h.0, add-some socket e.sockets, h.2)
  | inr there ↦ rw there (
    Fresh-connect e.key socket key es (ground (arith, there)) h.0,
    h.1,
    connect-IsProper socket key es h.2,
  )
]

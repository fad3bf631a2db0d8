-- ===== src/Gateway/Broadcast.antt =====
-- backend/app/ws/manager.py: what a broadcast does to the registry.
use uvipystock.Prelude.{
  ℕ, ◌==◌, ◌≡◌, refl, ap, ◌∙◌, arith, Bool, true, false, not, ◌&&◌, if◌then◌else◌, List, [], ◌∷◌,
  contains, All, Bool-cases, inl, inr, ==→eq, ==_self,
}
use uvipystock.Gateway.Manager.{
  Entry, discard, disconnect, sockets_of, select, disconnect_each, broadcast,
}
use uvipystock.Gateway.Registry.{
  IsProper, disconnect-IsProper, sockets_of-disconnect, sockets_of-disconnect_other,
}

-- All of a list discarded, one after the other.
abbrev discard_each : List ℕ → List ℕ → List ℕ
discard_each [] ss = ss
discard_each (d ∷ ds) ss = discard_each ds (discard d ss)

disconnect_each-is :
    (ds : List ℕ) (key : ℕ) (es : List Entry)
    → IsProper es
    → IsProper (disconnect_each ds key es)
      × (sockets_of key (disconnect_each ds key es) ≡ discard_each ds (sockets_of key es))
unfolding disconnect_each
disconnect_each-is [] key es h = (h, refl)
disconnect_each-is (d ∷ ds) key es h =
    let ih = disconnect_each-is ds key (disconnect d key es) (disconnect-IsProper d key es h) in
    (ih.0, ih.1 ∙ ap (discard_each ds) (sockets_of-disconnect d key es h))

disconnect_each-other :
    (ds : List ℕ) (key k : ℕ) (es : List Entry)
    → (key == k) ≡ false
    → sockets_of k (disconnect_each ds key es) ≡ sockets_of k es
unfolding disconnect_each
disconnect_each-other [] key k es d = refl
disconnect_each-other (s ∷ ss) key k es d =
    disconnect_each-other ss key k (disconnect s key es) d
    ∙ sockets_of-disconnect_other s key k es d

discard_each-nil : (ds : List ℕ) → discard_each ds [] ≡ []
unfolding discard
discard_each-nil [] = refl
discard_each-nil (d ∷ ds) = discard_each-nil ds

discard_each-cons :
    (ds : List ℕ) (s : ℕ) (ss : List ℕ)
    → discard_each ds (s ∷ ss)
      ≡ (if contains s ds then discard_each ds ss else s ∷ discard_each ds ss)
unfolding discard
discard_each-cons [] s ss = refl
discard_each-cons (d ∷ ds) s ss = elim (Bool-cases (s == d)) [
  | inl same ↦ rw same refl
  | inr differs ↦ rw differs (discard_each-cons ds s (discard d ss))
]

contains-select :
    (p : ℕ → Bool) (s : ℕ) (ss : List ℕ) → contains s (select p ss) ≡ contains s ss && p s
unfolding select
contains-select p s [] = refl
contains-select p s (t ∷ ts) =
    let ih = contains-select p s ts in
    elim (Bool-cases (s == t)) [
      | inl same ↦
          let q : p s ≡ p t = ap p (==→eq s t same) in
          elim (Bool-cases (p t)) [
            | inl e ↦ rw e (ground (arith, same, q, e))
            | inr e ↦ rw e (ground (arith, ih, q, e))
          ]
      | inr differs ↦ elim (Bool-cases (p t)) [
        | inl e ↦ rw e (rw differs ih)
        | inr e ↦ rw e (rw differs ih)
      ]
    ]

-- A part of the list, of which all that is chosen in the whole is discarded.
discard_each-select :
    (p : ℕ → Bool) (ss : List ℕ) (ts : List ℕ)
    → All (λ (t : ℕ). contains t ss ≡ true) ts
    → discard_each (select (λ s. not (p s)) ss) ts ≡ select p ts
unfolding select
discard_each-select p ss [] h = discard_each-nil (select (λ s. not (p s)) ss)
discard_each-select p ss (t ∷ ts) h =
    let ih = discard_each-select p ss ts h.1 in
    let dead = select (λ s. not (p s)) ss in
    let chosen : contains t dead ≡ not (p t) =
      ground (arith, contains-select (λ s. not (p s)) t ss, h.0) in
    discard_each-cons dead t ts ∙ elim (Bool-cases (p t)) [
      | inl e ↦ rw (chosen, e) (ap (λ us. t ∷ us) ih)
      | inr e ↦ rw (chosen, e) ih
    ]

contains_more :
    (s : ℕ) (ss ts : List ℕ)
    → All (λ (t : ℕ). contains t ss ≡ true) ts
    → All (λ (t : ℕ). contains t (s ∷ ss) ≡ true) ts
contains_more s ss [] h = tt
contains_more s ss (t ∷ ts) h = (ground (arith, h.0), contains_more s ss ts h.1)

contains-All : (ss : List ℕ) → All (λ (t : ℕ). contains t ss ≡ true) ss
contains-All [] = tt
contains-All (s ∷ ss) = (ground (arith, ==_self s), contains_more s ss ss (contains-All ss))

-- In a proper registry a broadcast reaches the sockets of its key to which a message can be sent;
-- those are the ones that stay, the other keys keep theirs, and the registry is proper after it.
pub broadcast_lem :
    (is_alive : ℕ → Bool) (key other : ℕ) (es : List Entry)
    → IsProper es
    → (key == other) ≡ false
    → let (sent, es') = broadcast is_alive key es in
      (sent ≡ select is_alive (sockets_of key es))
      × (sockets_of key es' ≡ sent)
      × (sockets_of other es' ≡ sockets_of other es)
      × IsProper es'
unfolding broadcast
broadcast_lem is_alive key other es h d =
    let conns = sockets_of key es in
    let dead = select (λ s. not (is_alive s)) conns in
    let r = disconnect_each-is dead key es h in
    (
      refl,
      r.1 ∙ discard_each-select is_alive conns conns (contains-All conns),
      disconnect_each-other dead key other es d,
      r.0,
    )

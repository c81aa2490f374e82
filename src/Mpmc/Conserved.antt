-- ===== src/Mpmc/Conserved.antt =====
-- Where the values are that have gone into the queue of include/chronos/utils/mpmc_queue.hpp.
use mathlib.Core.Path.{fun_ext, subst}
use mathlib.Core.List.{Perm, perm_middle}
use mathlib.Core.List.Perm
use trading_engine.Base.{
  ℕ, ◌≤◌, ◌≡◌, ◌≢◌, refl, sym, ap, ◌∙◌, List, [], ◌∷◌, ◌++◌, append_nil, append_assoc, Option, some,
  none, update, update_self, update_ne, ℕ_discrete,
}
use trading_engine.Mpmc.{capacity}
use trading_engine.Mpmc.System.{System}
use trading_engine.Mpmc.Refine.{
  Effect, QueueStep, stay, enqueue, dequeue, hand_over, contents, hands, Move-QueueStep,
}
use trading_engine.Mpmc.History.{Trace, begun, moved, Trace-Reach, put_by, given_by}

-- The values in the hands of the threads, each of them once for each thread that has it.
pub data Holds {A : Type 0} : (ℕ → Option A) → List A → Type 0 where
  empty : {h : ℕ → Option A} → ((j : ℕ) → h j ≡ none) → Holds h []
  holding :
      {h others : ℕ → Option A} {vs : List A} (i : ℕ) (v : A)
      → h i ≡ some v
      → others i ≡ none
      → ((j : ℕ) → i ≢ j → h j ≡ others j)
      → Holds others vs
      → Holds h (v ∷ vs)

module _ {A : Type 0} where
  one_value : {o : Option A} {u v : A} → o ≡ some u → o ≡ some v → u ≡ v
  one_value e e' = cc

  -- Thread i empties its hand.
  Holds-less :
      {h h' : ℕ → Option A} {vs : List A} (i : ℕ) (v : A)
      → Holds h vs
      → h i ≡ some v
      → h' i ≡ none
      → ((j : ℕ) → i ≢ j → h' j ≡ h j)
      → (rest : List A) × Holds h' rest × Perm vs (v ∷ rest)
  Holds-less i v (empty none_at) has gone same = absurd (let e = none_at i in cc)
  Holds-less {h} {h'} i v (holding {others = o} {vs = vs} l u at off rest_same hold) has gone same =
      elim (ℕ_discrete l i) [
        | yes here ↦
            let same_value : u ≡ v = one_value at (ap h here ∙ has) in
            let same_hands : o ≡ h' = fun_ext (λ j. elim (ℕ_discrete i j) [
              | yes e ↦ ap o (sym e ∙ sym here) ∙ off ∙ sym gone ∙ ap h' e
              | no ne ↦ sym (rest_same j (λ e. ne (sym here ∙ e))) ∙ sym (same j ne)
            ]) in
            (vs, subst (λ f. Holds f vs) same_hands hold, rw same_value (Perm.refl (v ∷ vs)))
        | no other ↦
            let cleared : ℕ → Option A = update o i none in
            let kept : o i ≡ some v = sym (rest_same i other) ∙ has in
            let (rest, hold', perm) =
              Holds-less {h' = cleared} i v hold kept (update_self o i none)
                (λ j ne. update_ne o i j none ne) in
            (
              u ∷ rest,
              holding l u (same l (λ e. other (sym e)) ∙ at)
                  (update_ne o i l none (λ e. other (sym e)) ∙ off)
                  (λ j ne. elim (ℕ_discrete i j) [
                    | yes e ↦ ap h' (sym e) ∙ gone ∙ sym (update_self o i none) ∙ ap cleared e
                    | no ne' ↦ same j ne' ∙ rest_same j ne ∙ sym (update_ne o i j none ne')
                  ])
                  hold',
              Perm.trans (Perm.cons u perm) (Perm.swap v u rest),
            )
      ]

  -- A step of the queue keeps the account.
  QueueStep-account :
      {bound i : ℕ} {q q' : List A} {h h' : ℕ → Option A} {e : Effect A} (puts given held : List A)
      → QueueStep bound i q h h' e q'
      → Holds h held
      → Perm puts (given ++ (held ++ q))
      → (held' : List A) × Holds h' held'
        × Perm (puts ++ put_by e) ((given ++ given_by e) ++ (held' ++ q'))
  QueueStep-account {q = q} puts given held (stay same) hold perm = (
    held,
    subst (λ f. Holds f held) (fun_ext (λ j. sym (same j))) hold,
    rw (append_nil puts, append_nil given) perm,
  )
  QueueStep-account {q = q} puts given held (enqueue v room same) hold perm = (
    held,
    subst (λ f. Holds f held) (fun_ext (λ j. sym (same j))) hold,
    rw (append_nil given, ← append_assoc held q (v ∷ []), ← append_assoc given (held ++ q) (v ∷ []))
        (Perm.append_right (v ∷ []) perm),
  )
  QueueStep-account puts given held (dequeue v r e free has same) hold perm = (
    v ∷ held,
    holding _ v has free same hold,
    rw (append_nil puts, append_nil given)
        (Perm.trans (rw⁻¹ e perm) (Perm.append_left given (perm_middle held r))),
  )
  QueueStep-account {q = q} puts given held (hand_over v has gone same) hold perm =
      let (rest, hold', less) = Holds-less _ v hold has gone same in
      (
        rest,
        hold',
        rw (append_nil puts, append_assoc given (v ∷ []) (rest ++ q))
            (Perm.trans perm (Perm.append_left given (Perm.append_right q less))),
      )

-- For N a power of two, at least 2, in every execution while tickets are far below 2 ^ 63: the
-- values that pushes have put are, up to order, those that pops have handed to their callers, those
-- that are in the hand of a thread, each thread's once, and those in the queue. So none is lost and
-- none is handed out twice.
pub puts_conserved :
    {A : Type 0} (k : ℕ)
    → 2 ≤ capacity k
    → {junk : ℕ → A} {s : System A} {puts given : List A} → Trace k junk s puts given
    → (held : List A) × Holds (hands s) held × Perm puts (given ++ (held ++ contents s))
puts_conserved k two begun = ([], empty (λ j. refl), Perm.refl [])
puts_conserved k two (moved {puts = puts} {given = given} h small i mv) =
    let (held, hold, perm) = puts_conserved k two h in
    QueueStep-account puts given held (Move-QueueStep k two (Trace-Reach h) small i mv) hold perm

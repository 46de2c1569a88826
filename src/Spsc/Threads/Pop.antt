-- ===== src/Spsc/Threads/Pop.antt =====
-- A call of `pop` (src/logging/SPSCQueue.hpp) where only the consumer moves.
use nanomatch.Base.{
  ℕ, ◌≡◌, refl, sym, ◌∙◌, if◌then◌else◌, Bool, true, false, [], ◌∷◌, ◌++◌, Option, none, some,
  Bool-cases, inl, inr,
}
use mathlib.Core.Path.{subst}
use nanomatch.Spsc.{SpscQueue, pop, seems_empty, load_tail, read_slot, release_head, take}
use nanomatch.Spsc.Threads.{
  Consumer, System, Step, emplace_room, emplace_full, refresh_room, refresh_full, write, publish,
  pop_some, pop_empty, refresh_some, refresh_empty, read, release,
}
use nanomatch.Spsc.Threads.Emplace.{by_producer}

module _ {ℓ} {A : Type ℓ} where
  abbrev pub busy : Consumer A → Bool
  busy Consumer.outside = false
  busy Consumer.refreshing = true
  busy Consumer.reading = true
  busy (Consumer.releasing item) = true

  -- The states on the way of one call of `pop` from `s`, where only the consumer moves.
  pub data PopCall (c : ℕ) (s : System A) : System A → Type ℓ where
    called : {t : System A} (m : Step c s t) → by_producer m ≡ false → PopCall c s t
    goes_on :
        {t u : System A}
        → PopCall c s t
        → busy t.consumer ≡ true
        → (m : Step c t u) → by_producer m ≡ false
        → PopCall c s u

  -- The state after a call of `pop` that gave `r`.
  abbrev pub after_pop : Option A × SpscQueue A → System A → System A
  after_pop (some item, q) s = record s {
    queue = q;
    consumer = Consumer.outside;
    taken = s.taken ++ (item ∷ []);
  }
  after_pop (none, q) s = record s { queue = q; consumer = Consumer.outside }

  -- The only state that the next step of the consumer leads to.
  abbrev Next : (c : ℕ) (t u : System A) → Consumer A → Type ℓ
  Next c t u Consumer.outside = u ≡ record t {
    consumer = if seems_empty t.queue then Consumer.refreshing else Consumer.reading;
  }
  Next c t u Consumer.refreshing = u ≡ (
      if seems_empty (load_tail t.queue)
      then record t { queue = load_tail t.queue; consumer = Consumer.outside }
      else record t { queue = load_tail t.queue; consumer = Consumer.reading })
  Next c t u Consumer.reading = u ≡ record t { consumer = Consumer.releasing (read_slot c t.queue) }
  Next c t u (Consumer.releasing item) = u ≡ record t {
    queue = release_head t.queue;
    consumer = Consumer.outside;
    taken = t.taken ++ (item ∷ []);
  }

  Step-Next :
      (c : ℕ) (t u : System A) (p : Consumer A) (m : Step c t u)
      → by_producer m ≡ false
      → t.consumer ≡ p
      → Next c t u p
  Step-Next c t u p (pop_some at e) mine is = subst (Next c t u) (sym at ∙ is) (rw e refl)
  Step-Next c t u p (pop_empty at e) mine is = subst (Next c t u) (sym at ∙ is) (rw e refl)
  Step-Next c t u p (refresh_some at e) mine is = subst (Next c t u) (sym at ∙ is) (rw e refl)
  Step-Next c t u p (refresh_empty at e) mine is = subst (Next c t u) (sym at ∙ is) (rw e refl)
  Step-Next c t u p (read at) mine is = subst (Next c t u) (sym at ∙ is) refl
  Step-Next c t u p (release item at) mine is = subst (Next c t u) (sym at ∙ is) refl
  Step-Next c t u p (emplace_room item at e) mine is = cc
  Step-Next c t u p (emplace_full item at e) mine is = cc
  Step-Next c t u p (refresh_room item at e) mine is = cc
  Step-Next c t u p (refresh_full item at e) mine is = cc
  Step-Next c t u p (write item at) mine is = cc
  Step-Next c t u p (publish item at) mine is = cc

  -- Where the call stands, and how it will end.
  data InCall (c : ℕ) (s : System A) : System A → Type ℓ where
    at_refresh :
        seems_empty s.queue ≡ true → InCall c s (record s { consumer = Consumer.refreshing })
    at_read :
        (q : SpscQueue A)
        → pop c s.queue ≡ take c q
        → InCall c s (record s { queue = q; consumer = Consumer.reading })
    at_release :
        (q : SpscQueue A) (item : A)
        → pop c s.queue ≡ (some item, release_head q)
        → InCall c s (record s { queue = q; consumer = Consumer.releasing item })
    at_end : InCall c s (after_pop (pop c s.queue) s)

  module _ (c : ℕ) (s : System A) where
    pop_now : seems_empty s.queue ≡ false → pop c s.queue ≡ take c s.queue
    unfolding pop
    pop_now more = rw more refl

    pop_later :
        seems_empty s.queue ≡ true
        → seems_empty (load_tail s.queue) ≡ false
        → pop c s.queue ≡ take c (load_tail s.queue)
    unfolding pop
    pop_later none_seen more = rw (none_seen, more) refl

    pop_never :
        seems_empty s.queue ≡ true
        → seems_empty (load_tail s.queue) ≡ true
        → pop c s.queue ≡ (none, load_tail s.queue)
    unfolding pop
    pop_never none_seen still = rw (none_seen, still) refl

    ended : (r : Option A × SpscQueue A) → pop c s.queue ≡ r → InCall c s (after_pop r s)
    ended r e = subst (λ r. InCall c s (after_pop r s)) e at_end

    after_outside : (r : Option A × SpscQueue A) → busy (after_pop r s).consumer ≡ false
    after_outside (some item, q) = refl
    after_outside (none, q) = refl

    first-InCall :
        (none_seen : Bool)
        → seems_empty s.queue ≡ none_seen
        → InCall c s
            (record s { consumer = if none_seen then Consumer.refreshing else Consumer.reading })
    first-InCall true e = at_refresh e
    first-InCall false e = at_read s.queue (pop_now e)

    Step-InCall :
        {t u : System A}
        → InCall c s t
        → busy t.consumer ≡ true
        → (m : Step c t u) → by_producer m ≡ false
        → InCall c s u
    Step-InCall {t} {u} (at_refresh none_seen) about m mine =
        let next = Step-Next c t u _ m mine refl in
        elim (Bool-cases (seems_empty (load_tail s.queue))) [
          | inl still ↦
              subst (InCall c s) (sym (rw still at next)) (ended _ (pop_never none_seen still))
          | inr more ↦
              subst (InCall c s) (sym (rw more at next))
                (at_read (load_tail s.queue) (pop_later none_seen more))
        ]
    Step-InCall {t} {u} (at_read q e) about m mine =
        subst (InCall c s) (sym (Step-Next c t u _ m mine refl)) (at_release q _ e)
    Step-InCall {t} {u} (at_release q item e) about m mine =
        subst (InCall c s) (sym (Step-Next c t u _ m mine refl)) (ended _ e)
    Step-InCall at_end about m mine = let out = after_outside (pop c s.queue) in cc

    in_call : {t : System A} → s.consumer ≡ Consumer.outside → PopCall c s t → InCall c s t
    in_call {t} out (called m mine) =
        subst (InCall c s) (sym (Step-Next c s t _ m mine out))
          (first-InCall (seems_empty s.queue) refl)
    in_call out (goes_on before about m mine) = Step-InCall (in_call out before) about m mine

    end_of :
        {t : System A}
        → InCall c s t
        → t.consumer ≡ Consumer.outside
        → t ≡ after_pop (pop c s.queue) s
    end_of (at_refresh none_seen) out = cc
    end_of (at_read q e) out = cc
    end_of (at_release q item e) out = cc
    end_of at_end out = refl

    took :
        {t : System A}
        → PopCall c s t
        → t.consumer ≡ Consumer.reading
        → PopCall c s (after_pop (take c t.queue) t)
    took before at = goes_on (goes_on before (rw at refl) (read at) refl) refl (release _ refl) refl

    pub pop-call : s.consumer ≡ Consumer.outside → PopCall c s (after_pop (pop c s.queue) s)
    unfolding pop
    pop-call at = elim (Bool-cases (seems_empty s.queue)) [
      | inl none_seen ↦ elim (Bool-cases (seems_empty (load_tail s.queue))) [
        | inl still ↦
            rw (none_seen, still)
              (goes_on (called (pop_empty at none_seen) refl) refl (refresh_empty refl still) refl)
        | inr more ↦
            rw (none_seen, more)
              (took
                (goes_on (called (pop_empty at none_seen) refl) refl (refresh_some refl more) refl)
                refl)
      ]
      | inr more ↦ rw more (took (called (pop_some at more) refl) refl)
    ]

    pub pop-only :
        {t : System A}
        → s.consumer ≡ Consumer.outside
        → PopCall c s t
        → t.consumer ≡ Consumer.outside
        → t ≡ after_pop (pop c s.queue) s
    pop-only at run out = end_of (in_call at run) out

-- ===== src/Spsc/Threads/Emplace.antt =====
-- A call of `emplace` (src/logging/SPSCQueue.hpp) where only the producer moves.
use nanomatch.Base.{
  ℕ, ◌≡◌, ◌≢◌, refl, if◌then◌else◌, sym, ◌∙◌, Bool, true, false, [], ◌∷◌, ◌++◌, Option, none, some,
  Bool-cases, inl, inr,
}
use mathlib.Core.Path.{subst}
use nanomatch.Spsc.{SpscQueue, emplace, seems_full, load_head, write_slot, publish_tail, put}
use nanomatch.Spsc.Threads.{
  Producer, System, Step, emplace_room, emplace_full, refresh_room, refresh_full, write, publish,
  pop_some, pop_empty, refresh_some, refresh_empty, read, release,
}

module _ {ℓ} {A : Type ℓ} where
  abbrev pub item_at : Producer A → Option A
  item_at Producer.outside = none
  item_at (Producer.refreshing item) = some item
  item_at (Producer.writing item) = some item
  item_at (Producer.publishing item) = some item

  abbrev pub by_producer : {c : ℕ} {s t : System A} → Step c s t → Bool
  by_producer (emplace_room item at e) = true
  by_producer (emplace_full item at e) = true
  by_producer (refresh_room item at e) = true
  by_producer (refresh_full item at e) = true
  by_producer (write item at) = true
  by_producer (publish item at) = true
  by_producer (pop_some at e) = false
  by_producer (pop_empty at e) = false
  by_producer (refresh_some at e) = false
  by_producer (refresh_empty at e) = false
  by_producer (read at) = false
  by_producer (release item at) = false

  -- The states on the way of one call of `emplace` on `item` from `s`, where only the producer moves.
  pub data EmplaceCall (c : ℕ) (item : A) (s : System A) : System A → Type ℓ where
    called :
        {t : System A}
        → (m : Step c s t) → by_producer m ≡ true
        → item_at t.producer ≡ some item
        → EmplaceCall c item s t
    goes_on :
        {t u : System A}
        → EmplaceCall c item s t
        → item_at t.producer ≡ some item
        → (m : Step c t u) → by_producer m ≡ true
        → EmplaceCall c item s u

  -- The state after a call of `emplace` that gave `r`.
  abbrev pub after_emplace : Bool × SpscQueue A → A → System A → System A
  after_emplace (true, q) item s = record s {
    queue = q;
    producer = Producer.outside;
    accepted = s.accepted ++ (item ∷ []);
  }
  after_emplace (false, q) item s = record s {
    queue = q;
    producer = Producer.outside;
    refused = s.refused ++ (item ∷ []);
  }

  none-some : {x : A} → none ≢ some x
  none-some e = cc

  -- The only state that the next step of the producer leads to.
  abbrev Next : (c : ℕ) (t u : System A) → Producer A → Type ℓ
  Next c t u Producer.outside =
      (item : A) × (u ≡ record t {
        producer = if seems_full c t.queue then Producer.refreshing item else Producer.writing item;
      })
  Next c t u (Producer.refreshing item) = u ≡ (
      if seems_full c (load_head t.queue)
      then record t {
        queue = load_head t.queue;
        producer = Producer.outside;
        refused = t.refused ++ (item ∷ []);
      }
      else record t { queue = load_head t.queue; producer = Producer.writing item })
  Next c t u (Producer.writing item) =
      u ≡ record t { queue = write_slot c item t.queue; producer = Producer.publishing item }
  Next c t u (Producer.publishing item) = u ≡ record t {
    queue = publish_tail t.queue;
    producer = Producer.outside;
    accepted = t.accepted ++ (item ∷ []);
  }

  Step-Next :
      (c : ℕ) (t u : System A) (p : Producer A) (m : Step c t u)
      → by_producer m ≡ true
      → t.producer ≡ p
      → Next c t u p
  Step-Next c t u p (emplace_room item at e) mine is =
      subst (Next c t u) (sym at ∙ is) (item, rw e refl)
  Step-Next c t u p (emplace_full item at e) mine is =
      subst (Next c t u) (sym at ∙ is) (item, rw e refl)
  Step-Next c t u p (refresh_room item at e) mine is = subst (Next c t u) (sym at ∙ is) (rw e refl)
  Step-Next c t u p (refresh_full item at e) mine is = subst (Next c t u) (sym at ∙ is) (rw e refl)
  Step-Next c t u p (write item at) mine is = subst (Next c t u) (sym at ∙ is) refl
  Step-Next c t u p (publish item at) mine is = subst (Next c t u) (sym at ∙ is) refl
  Step-Next c t u p (pop_some at e) mine is = cc
  Step-Next c t u p (pop_empty at e) mine is = cc
  Step-Next c t u p (refresh_some at e) mine is = cc
  Step-Next c t u p (refresh_empty at e) mine is = cc
  Step-Next c t u p (read at) mine is = cc
  Step-Next c t u p (release item at) mine is = cc

  -- Where the call stands, and how it will end.
  data InCall (c : ℕ) (item : A) (s : System A) : System A → Type ℓ where
    at_refresh :
        seems_full c s.queue ≡ true
        → InCall c item s (record s { producer = Producer.refreshing item })
    at_write :
        (q : SpscQueue A)
        → emplace c item s.queue ≡ put c item q
        → InCall c item s (record s { queue = q; producer = Producer.writing item })
    at_publish :
        (q : SpscQueue A)
        → emplace c item s.queue ≡ (true, publish_tail q)
        → InCall c item s (record s { queue = q; producer = Producer.publishing item })
    at_end : InCall c item s (after_emplace (emplace c item s.queue) item s)

  module _ (c : ℕ) (item : A) (s : System A) where
    emplace_now : seems_full c s.queue ≡ false → emplace c item s.queue ≡ put c item s.queue
    unfolding emplace
    emplace_now room = rw room refl

    emplace_later :
        seems_full c s.queue ≡ true
        → seems_full c (load_head s.queue) ≡ false
        → emplace c item s.queue ≡ put c item (load_head s.queue)
    unfolding emplace
    emplace_later full room = rw (full, room) refl

    emplace_never :
        seems_full c s.queue ≡ true
        → seems_full c (load_head s.queue) ≡ true
        → emplace c item s.queue ≡ (false, load_head s.queue)
    unfolding emplace
    emplace_never full still = rw (full, still) refl

    ended :
        (r : Bool × SpscQueue A)
        → emplace c item s.queue ≡ r
        → InCall c item s (after_emplace r item s)
    ended r e = subst (λ r. InCall c item s (after_emplace r item s)) e at_end

    after_outside : (r : Bool × SpscQueue A) → (after_emplace r item s).producer ≡ Producer.outside
    after_outside (true, q) = refl
    after_outside (false, q) = refl

    first-InCall :
        (full : Bool) (x : A)
        → seems_full c s.queue ≡ full
        → item_at (if full then Producer.refreshing x else Producer.writing x) ≡ some item
        → InCall c item s
            (record s { producer = if full then Producer.refreshing x else Producer.writing x })
    first-InCall true x e about =
        let same : item ≡ x = cc in
        subst (λ y. InCall c item s (record s { producer = Producer.refreshing y })) same
          (at_refresh e)
    first-InCall false x e about =
        let same : item ≡ x = cc in
        subst (λ y. InCall c item s (record s { producer = Producer.writing y })) same
          (at_write s.queue (emplace_now e))

    Step-InCall :
        {t u : System A}
        → InCall c item s t
        → item_at t.producer ≡ some item
        → (m : Step c t u) → by_producer m ≡ true
        → InCall c item s u
    Step-InCall {t} {u} (at_refresh full) about m mine =
        let next = Step-Next c t u _ m mine refl in
        elim (Bool-cases (seems_full c (load_head s.queue))) [
          | inl still ↦
              subst (InCall c item s) (sym (rw still at next)) (ended _ (emplace_never full still))
          | inr room ↦
              subst (InCall c item s) (sym (rw room at next))
                (at_write (load_head s.queue) (emplace_later full room))
        ]
    Step-InCall {t} {u} (at_write q e) about m mine =
        subst (InCall c item s) (sym (Step-Next c t u _ m mine refl)) (at_publish _ e)
    Step-InCall {t} {u} (at_publish q e) about m mine =
        subst (InCall c item s) (sym (Step-Next c t u _ m mine refl)) (ended _ e)
    Step-InCall at_end about m mine = absurd (
        none-some
          (subst (λ p. item_at p ≡ some item) (after_outside (emplace c item s.queue)) about))

    in_call :
        {t : System A} → s.producer ≡ Producer.outside → EmplaceCall c item s t → InCall c item s t
    in_call {t} out (called m mine about) =
        let (x, e) = Step-Next c s t _ m mine out in
        subst (InCall c item s) (sym e) (
          first-InCall (seems_full c s.queue) x refl
            (subst (λ u. item_at u.producer ≡ some item) e about))
    in_call out (goes_on before about m mine) = Step-InCall (in_call out before) about m mine

    end_of :
        {t : System A}
        → InCall c item s t
        → t.producer ≡ Producer.outside
        → t ≡ after_emplace (emplace c item s.queue) item s
    end_of (at_refresh full) out = cc
    end_of (at_write q e) out = cc
    end_of (at_publish q e) out = cc
    end_of at_end out = refl

    wrote :
        {t : System A}
        → EmplaceCall c item s t
        → t.producer ≡ Producer.writing item
        → EmplaceCall c item s (after_emplace (put c item t.queue) item t)
    wrote before at =
        goes_on (goes_on before (rw at refl) (write item at) refl) refl (publish item refl) refl

    pub emplace-call :
        s.producer ≡ Producer.outside
        → EmplaceCall c item s (after_emplace (emplace c item s.queue) item s)
    unfolding emplace
    emplace-call at = elim (Bool-cases (seems_full c s.queue)) [
      | inl full ↦ elim (Bool-cases (seems_full c (load_head s.queue))) [
        | inl still ↦
            rw (full, still)
              (goes_on (called (emplace_full item at full) refl refl) refl
                (refresh_full item refl still) refl)
        | inr room ↦
            rw (full, room)
              (wrote
                (goes_on (called (emplace_full item at full) refl refl) refl
                  (refresh_room item refl room) refl)
                refl)
      ]
      | inr room ↦ rw room (wrote (called (emplace_room item at room) refl refl) refl)
    ]

    pub emplace-only :
        {t : System A}
        → s.producer ≡ Producer.outside
        → EmplaceCall c item s t
        → t.producer ≡ Producer.outside
        → t ≡ after_emplace (emplace c item s.queue) item s
    emplace-only at run out = end_of (in_call at run) out

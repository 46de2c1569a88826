-- ===== src/Spsc/Threads/Invariant.antt =====
-- What holds between any two accesses of the threads of `SPSCQueue` (src/logging/SPSCQueue.hpp).
use nanomatch.Base.{
  ℕ, suc, ◌+◌, ◌%◌, ◌<◌, ◌≡◌, refl, ◌∙◌, ap, sym, arith, List, [], ◌∷◌, ◌++◌, length, length-append,
}
use mathlib.Core.Path.{subst}
use mathlib.Core.List.{append_assoc}
use nanomatch.Spsc.{
  SpscQueue, read_slot, load_head, load_tail, write_slot, publish_tail, release_head,
}
use nanomatch.Spsc.Index.{IsCapacity}
use nanomatch.Spsc.Window.{Window, new-Window}
use nanomatch.Spsc.Moves.{
  seems_full-false, seems_empty-false, load_head-Window, load_tail-Window, write_slot-Window,
  write_slot-slot, publish_tail-Window, read_slot-first, release_head-Window,
}
use nanomatch.Spsc.Threads.{
  Producer, Consumer, System, init, Step, none_yet, and_then, Reach, emplace_room, emplace_full,
  refresh_room, refresh_full, write, publish, pop_some, pop_empty, refresh_some, refresh_empty,
  read, release,
}

-- Past its test the producer has a free slot behind the window.
abbrev pub ProducerFits {ℓ} : {A : Type ℓ} (c last head_seen : ℕ) → Producer A → Type 0
ProducerFits c last head_seen (Producer.writing item) = last < head_seen + c
ProducerFits c last head_seen (Producer.publishing item) = last < head_seen + c
ProducerFits c last head_seen _ = Unit

-- Once written, the slot holds the item.
abbrev pub ProducerWrote {ℓ} : {A : Type ℓ} (c last : ℕ) (buffer : ℕ → A) → Producer A → Type ℓ
ProducerWrote c last b (Producer.publishing item) = b (last % c) ≡ item
ProducerWrote c last b _ = Unit

-- Past its test the consumer has an item.
abbrev pub ConsumerSees {ℓ} : {A : Type ℓ} (first tail_seen : ℕ) → Consumer A → Type 0
ConsumerSees first tail_seen Consumer.reading = first < tail_seen
ConsumerSees first tail_seen (Consumer.releasing item) = first < tail_seen
ConsumerSees first tail_seen _ = Unit

-- It has read the item that waits longest.
abbrev pub ConsumerRead {ℓ} : {A : Type ℓ} (waiting : List A) → Consumer A → Type ℓ
ConsumerRead waiting (Consumer.releasing item) = (ys : List _) × (waiting ≡ item ∷ ys)
ConsumerRead waiting _ = Unit

pub record Inv {ℓ} {A : Type ℓ} (c : ℕ) (s : System A) : Type ℓ where
  pub waiting : List A
  pub head_seen : ℕ
  pub tail_seen : ℕ
  pub log : s.accepted ≡ s.taken ++ waiting
  pub window : Window c s.queue (length s.taken) head_seen tail_seen waiting
  pub fits : ProducerFits c (length s.taken + length waiting) head_seen s.producer
  pub wrote : ProducerWrote c (length s.taken + length waiting) s.queue.buffer s.producer
  pub sees : ConsumerSees (length s.taken) tail_seen s.consumer
  pub given : ConsumerRead waiting s.consumer

pub init-Inv {ℓ} : {A : Type ℓ} (c : ℕ) (memory : ℕ → A) → Inv c (init memory)
init-Inv c memory = record {
  waiting = [];
  head_seen = 0;
  tail_seen = 0;
  log = refl;
  window = new-Window c memory;
  fits = tt;
  wrote = tt;
  sees = tt;
  given = tt;
}

module _ {ℓ} {A : Type ℓ} {c : ℕ} (cap : IsCapacity c) {s : System A} (i : Inv c s) where
  abbrev last : ℕ
  last = length s.taken + length i.waiting

  -- What a thread knows at the point where it stands.
  fits_at : {p : Producer A} → s.producer ≡ p → ProducerFits c last i.head_seen p
  fits_at at = subst (ProducerFits c last i.head_seen) at i.fits

  wrote_at : {p : Producer A} → s.producer ≡ p → ProducerWrote c last s.queue.buffer p
  wrote_at at = subst (ProducerWrote c last s.queue.buffer) at i.wrote

  sees_at : {k : Consumer A} → s.consumer ≡ k → ConsumerSees (length s.taken) i.tail_seen k
  sees_at at = subst (ConsumerSees (length s.taken) i.tail_seen) at i.sees

  given_at : {k : Consumer A} → s.consumer ≡ k → ConsumerRead i.waiting k
  given_at at = subst (ConsumerRead i.waiting) at i.given

  -- The producer moves on to `p`, with a new queue and head, and the window stays.
  produced :
      (q : SpscQueue A) (p : Producer A) (refused : List A) (head_seen : ℕ)
      → Window c q (length s.taken) head_seen i.tail_seen i.waiting
      → ProducerFits c last head_seen p
      → ProducerWrote c last q.buffer p
      → Inv c (record s { queue = q; producer = p; refused = refused })
  produced q p refused head_seen w fits wrote = record {
    waiting = i.waiting;
    head_seen = head_seen;
    tail_seen = i.tail_seen;
    log = i.log;
    window = w;
    fits = fits;
    wrote = wrote;
    sees = i.sees;
    given = i.given;
  }

  -- The consumer moves on to `k`, with a new tail.
  consumed :
      (q : SpscQueue A) (k : Consumer A) (tail_seen : ℕ)
      → q.buffer ≡ s.queue.buffer
      → Window c q (length s.taken) i.head_seen tail_seen i.waiting
      → ConsumerSees (length s.taken) tail_seen k
      → ConsumerRead i.waiting k
      → Inv c (record s { queue = q; consumer = k })
  consumed q k tail_seen same w sees given = record {
    waiting = i.waiting;
    head_seen = i.head_seen;
    tail_seen = tail_seen;
    log = i.log;
    window = w;
    fits = i.fits;
    wrote = subst (λ b. ProducerWrote c last b s.producer) (sym same) i.wrote;
    sees = sees;
    given = given;
  }

  -- An item joins those that wait, and one that waits longest first keeps its place.
  ConsumerRead-append :
      (k : Consumer A) (v : A) → ConsumerRead i.waiting k → ConsumerRead (i.waiting ++ (v ∷ [])) k
  ConsumerRead-append (Consumer.releasing item) v (ys, e) = (ys ++ (v ∷ []), rw e refl)
  ConsumerRead-append Consumer.outside v h = tt
  ConsumerRead-append Consumer.refreshing v h = tt
  ConsumerRead-append Consumer.reading v h = tt

  published :
      (item : A)
      → s.producer ≡ Producer.publishing item
      → Inv c (record s {
        queue = publish_tail s.queue;
        producer = Producer.outside;
        accepted = s.accepted ++ (item ∷ []);
      })
  published item at = record {
    waiting = i.waiting ++ (item ∷ []);
    head_seen = i.head_seen;
    tail_seen = i.tail_seen;
    log = ap (λ l. l ++ (item ∷ [])) i.log ∙ append_assoc s.taken i.waiting (item ∷ []);
    window = publish_tail-Window c cap s.queue i.window item (fits_at at) (wrote_at at);
    fits = tt;
    wrote = tt;
    sees = i.sees;
    given = ConsumerRead-append s.consumer item i.given;
  }

  -- Something waits where the consumer's tail is past its head.
  waits : length s.taken < i.tail_seen → (x : A) × (ys : List A) × (i.waiting ≡ x ∷ ys)
  waits lt = waits_in i.waiting (omega (arith, lt, i.window.tail_old))
    where
      waits_in : (xs : List A) → 0 < length xs → (x : A) × (ys : List A) × (xs ≡ x ∷ ys)
      waits_in [] h = absurd (omega arith)
      waits_in (x ∷ ys) h = (x, ys, refl)

  was_read :
      s.consumer ≡ Consumer.reading
      → Inv c (record s { consumer = Consumer.releasing (read_slot c s.queue) })
  was_read at =
      let (x, ys, e) = waits (sees_at at) in
      let there : read_slot c s.queue ≡ x =
        read_slot-first c cap s.queue (subst (Window c s.queue _ _ _) e i.window) in
      consumed s.queue (Consumer.releasing _) i.tail_seen refl i.window (sees_at at)
        (ys, rw there e)

  released :
      (item : A)
      → s.consumer ≡ Consumer.releasing item
      → Inv c (record s {
        queue = release_head s.queue;
        consumer = Consumer.outside;
        taken = s.taken ++ (item ∷ []);
      })
  released item at =
      let (ys, e) = given_at at in
      let longer : length (s.taken ++ (item ∷ [])) ≡ suc (length s.taken) =
        omega (arith, length-append s.taken (item ∷ [])) in
      let before : length i.waiting ≡ suc (length ys) = ap length e in
      let end : length (s.taken ++ (item ∷ [])) + length ys ≡ last = omega arith in
      let w =
        release_head-Window c cap s.queue (subst (Window c s.queue _ _ _) e i.window)
          (sees_at at) in
      record {
        waiting = ys;
        head_seen = i.head_seen;
        tail_seen = i.tail_seen;
        log = i.log ∙ ap (λ l. s.taken ++ l) e ∙ sym (append_assoc s.taken (item ∷ []) ys);
        window =
            subst (λ n. Window c (release_head s.queue) n i.head_seen i.tail_seen ys) (sym longer)
              w;
        fits = subst (λ n. ProducerFits c n i.head_seen s.producer) (sym end) i.fits;
        wrote = subst (λ n. ProducerWrote c n s.queue.buffer s.producer) (sym end) i.wrote;
        sees = tt;
        given = tt;
      }

  Step-Inv : {t : System A} → Step c s t → Inv c t
  Step-Inv (emplace_room item at test) =
      produced s.queue (Producer.writing item) s.refused i.head_seen i.window
        (seems_full-false c cap s.queue i.window test) tt
  Step-Inv (emplace_full item at test) =
      produced s.queue (Producer.refreshing item) s.refused i.head_seen i.window tt tt
  Step-Inv (refresh_room item at test) =
      let w = load_head-Window c cap s.queue i.window in
      produced (load_head s.queue) (Producer.writing item) s.refused _ w
        (seems_full-false c cap (load_head s.queue) w test) tt
  Step-Inv (refresh_full item at test) =
      produced (load_head s.queue) Producer.outside _ _ (load_head-Window c cap s.queue i.window) tt
        tt
  Step-Inv (write item at) =
      produced (write_slot c item s.queue) (Producer.publishing item) s.refused i.head_seen
        (write_slot-Window c cap s.queue i.window item (fits_at at)) (fits_at at)
        (write_slot-slot c cap s.queue i.window item)
  Step-Inv (publish item at) = published item at
  Step-Inv (pop_some at test) =
      consumed s.queue Consumer.reading i.tail_seen refl i.window
        (seems_empty-false c cap s.queue i.window test) tt
  Step-Inv (pop_empty at test) =
      consumed s.queue Consumer.refreshing i.tail_seen refl i.window tt tt
  Step-Inv (refresh_some at test) =
      let w = load_tail-Window c cap s.queue i.window in
      consumed (load_tail s.queue) Consumer.reading _ refl w
        (seems_empty-false c cap (load_tail s.queue) w test) tt
  Step-Inv (refresh_empty at test) =
      consumed (load_tail s.queue) Consumer.outside _ refl (load_tail-Window c cap s.queue i.window)
        tt tt
  Step-Inv (read at) = was_read at
  Step-Inv (release item at) = released item at

pub Reach-Inv {ℓ} :
    {A : Type ℓ} {c : ℕ} {memory : ℕ → A} {s : System A} → IsCapacity c → Reach c memory s → Inv c s
Reach-Inv {c = c} {memory = memory} cap none_yet = init-Inv c memory
Reach-Inv cap (and_then r mv) = Step-Inv cap (Reach-Inv cap r) mv

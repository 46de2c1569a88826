-- ===== src/Spsc/Threads.antt =====
-- The two threads of `SPSCQueue` (src/logging/SPSCQueue.hpp), interleaved in any order, an access to
-- the atomics or to a slot at a time. The acquire and release orders make each access see what was
-- stored before it, so the accesses are taken in one order.
pub mod Invariant
pub mod Safety
pub mod Emplace
pub mod Pop
pub mod Runs
use nanomatch.Base.{ℕ, ◌≡◌, Bool, true, false, List, [], ◌∷◌, ◌++◌}
use nanomatch.Spsc.{
  SpscQueue, new, seems_full, seems_empty, load_head, load_tail, write_slot, publish_tail,
  read_slot, release_head,
}

-- Where `emplace` stands, with the item that it was called on.
pub data Producer {ℓ} (A : Type ℓ) : Type ℓ where
  outside : Producer A
  refreshing : A → Producer A  -- before the load of `head_`
  writing : A → Producer A  -- before the slot is written
  publishing : A → Producer A  -- before the store to `tail_`

-- Where `pop` stands.
pub data Consumer {ℓ} (A : Type ℓ) : Type ℓ where
  outside : Consumer A
  refreshing : Consumer A  -- before the load of `tail_`
  reading : Consumer A  -- before the slot is read
  releasing : A → Consumer A  -- before the store to `head_`

-- `accepted` are the items of the calls of `emplace` that went on to `return true`, and `taken` those
-- that `pop` gave, each in the order of the calls. `refused` are those of the other calls of `emplace`.
pub record System {ℓ} (A : Type ℓ) : Type ℓ where
  pub queue : SpscQueue A
  pub producer : Producer A
  pub consumer : Consumer A
  pub accepted : List A
  pub refused : List A
  pub taken : List A

abbrev pub init {ℓ} : {A : Type ℓ} → (ℕ → A) → System A
init memory = record {
  queue = new memory;
  producer = Producer.outside;
  consumer = Consumer.outside;
  accepted = [];
  refused = [];
  taken = [];
}

pub data Step {ℓ} {A : Type ℓ} (c : ℕ) (s : System A) : System A → Type ℓ where
  emplace_room :
      (item : A)
      → s.producer ≡ Producer.outside
      → seems_full c s.queue ≡ false
      → Step c s (record s { producer = Producer.writing item })
  emplace_full :
      (item : A)
      → s.producer ≡ Producer.outside
      → seems_full c s.queue ≡ true
      → Step c s (record s { producer = Producer.refreshing item })
  refresh_room :
      (item : A)
      → s.producer ≡ Producer.refreshing item
      → seems_full c (load_head s.queue) ≡ false
      → Step c s (record s { queue = load_head s.queue; producer = Producer.writing item })
  refresh_full :
      (item : A)
      → s.producer ≡ Producer.refreshing item
      → seems_full c (load_head s.queue) ≡ true
      → Step c s (record s {
        queue = load_head s.queue;
        producer = Producer.outside;
        refused = s.refused ++ (item ∷ []);
      })
  write :
      (item : A)
      → s.producer ≡ Producer.writing item
      → Step c s
          (record s { queue = write_slot c item s.queue; producer = Producer.publishing item })
  publish :
      (item : A)
      → s.producer ≡ Producer.publishing item
      → Step c s (record s {
        queue = publish_tail s.queue;
        producer = Producer.outside;
        accepted = s.accepted ++ (item ∷ []);
      })
  pop_some :
      s.consumer ≡ Consumer.outside
      → seems_empty s.queue ≡ false
      → Step c s (record s { consumer = Consumer.reading })
  pop_empty :
      s.consumer ≡ Consumer.outside
      → seems_empty s.queue ≡ true
      → Step c s (record s { consumer = Consumer.refreshing })
  refresh_some :
      s.consumer ≡ Consumer.refreshing
      → seems_empty (load_tail s.queue) ≡ false
      → Step c s (record s { queue = load_tail s.queue; consumer = Consumer.reading })
  refresh_empty :
      s.consumer ≡ Consumer.refreshing
      → seems_empty (load_tail s.queue) ≡ true
      → Step c s (record s { queue = load_tail s.queue; consumer = Consumer.outside })
  read :
      s.consumer ≡ Consumer.reading
      → Step c s (record s { consumer = Consumer.releasing (read_slot c s.queue) })
  release :
      (item : A)
      → s.consumer ≡ Consumer.releasing item
      → Step c s (record s {
        queue = release_head s.queue;
        consumer = Consumer.outside;
        taken = s.taken ++ (item ∷ []);
      })

-- The states that some interleaving leads to from `s`.
pub data Steps {ℓ} {A : Type ℓ} (c : ℕ) (s : System A) : System A → Type ℓ where
  none_yet : Steps c s s
  and_then : {t u : System A} → Steps c s t → Step c t u → Steps c s u

abbrev pub Reach {ℓ} : {A : Type ℓ} → ℕ → (ℕ → A) → System A → Type ℓ
Reach c memory s = Steps c (init memory) s

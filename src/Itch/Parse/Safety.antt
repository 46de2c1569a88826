-- ===== src/Itch/Parse/Safety.antt =====
-- The loop of src/ingestion/ItchParser.cpp stays inside the file, and ends.
use nanomatch.Base.{
  ℕ, zero, suc, ◌+◌, ◌<◌, refl, sym, Bool-cases, inl, inr, List, length, ltb, arith,
}
use mathlib.Core.Path.{subst}
use mathlib.Core.Option.{none-ne-some}
use nanomatch.Wire.{bswap}
use nanomatch.Wire.Length.{length-drop}
use nanomatch.Itch.Protocol.{ItchCommonHeader}
use nanomatch.Itch.Protocol.Sizes.{sizeof_header, header-Takes}
use nanomatch.Itch.Decode.{decode}
use nanomatch.Itch.Decode.Range.{decode-InRange}
use nanomatch.Itch.Feed.{Config, Feed, Outcome, ◌>>=◌, handle, done}
use nanomatch.Itch.Feed
use nanomatch.Outcome.{Safe, bind-Safe}
use nanomatch.Itch.Feed.Owners.{Owned}
use nanomatch.Itch.Feed.Handlers.{handle-Safe, same-Owned}
use nanomatch.Itch.Parse.{
  count_message, on_header, take_record, parse_loop, parse_rounds, parse_itch_file,
}

module _ (cfg : Config) where
  take_record-Safe :
      (n : ℕ) (bytes : List ℕ) (f : Feed) (next : List ℕ → Feed → Outcome Feed)
      (header : ItchCommonHeader) (payload : List ℕ)
      → length bytes < suc n
      → Owned cfg f
      → ((rest : List ℕ) (g : Feed)
          → length rest < n
          → Owned cfg g
          → Safe (Owned cfg) (next rest g))
      → Safe (Owned cfg) (take_record cfg bytes f next header payload)
  take_record-Safe n bytes f next header payload enough o go =
      elim (Bool-cases (ltb (bswap 2 header.packet_length) 1)) [
        | inl tiny ↦ rw tiny o
        | inr whole ↦
            rw whole (elim (Bool-cases (ltb (length bytes) (2 + bswap 2 header.packet_length))) [
              | inl cut ↦ rw cut o
              | inr fits ↦ rw fits (
                  bind-Safe (Owned cfg) (handle cfg (decode header.message_type payload) f) _
                    (handle-Safe cfg (decode header.message_type payload) f
                      (decode-InRange header.message_type payload) o)
                    (λ g k.
                      go _ (count_message g)
                        (ground (
                          arith,
                          whole,
                          fits,
                          enough,
                          length-drop (2 + bswap 2 header.packet_length) bytes,
                        ))
                        (same-Owned cfg g (count_message g) k refl refl k.few_inserts k.few_execs)))
            ])
      ]

  -- With a round for each byte and one to end.
  parse_loop-Safe :
      (n : ℕ) (bytes : List ℕ) (f : Feed)
      → length bytes < n
      → Owned cfg f
      → Safe (Owned cfg) (parse_loop cfg n bytes f)
  unfolding parse_loop
  parse_loop-Safe zero bytes f enough o = absurd (omega (arith, enough))
  parse_loop-Safe (suc n) bytes f enough o = elim (Bool-cases (ltb 0 (length bytes))) [
    | inr end ↦ rw end o
    | inl more ↦ rw more (elim (Bool-cases (ltb (length bytes) sizeof_header)) [
      | inl cut ↦ rw cut o
      | inr fits ↦
          let (header, payload, got, left) = header-Takes.taken bytes (ground (arith, fits)) in
          rw fits (
            subst (λ r. Safe (Owned cfg) (on_header r (take_record cfg bytes f (parse_loop cfg n))))
              (sym got)
              (take_record-Safe n bytes f (parse_loop cfg n) header payload enough o
                (λ rest g. parse_loop-Safe n rest g)))
    ])
  ]

  new-Owned : (clock : ℕ → ℕ) → Owned cfg (Feed.new clock)
  new-Owned clock = record {
    tracked = λ l b e. absurd (none-ne-some b e);
    owned = λ id l e. absurd (none-ne-some l e);
    few_inserts = omega arith;
    few_execs = omega arith;
  }

  -- On any bytes, `parse_itch_file` with a round for each byte and one to end reads nothing past
  -- the end of the file, follows no owner to a missing book and does not use its rounds up: it is
  -- done, or a loop of a book goes on. When it is done, books exist only for tracked locates below
  -- 8192, every owner in `ref_owner` leads to a book, and each list of samples has at most 16 ids.
  pub parse_itch_file-Safe :
      (bytes : List ℕ) (clock : ℕ → ℕ) → Safe (Owned cfg) (parse_itch_file cfg bytes clock)
  unfolding parse_itch_file
  parse_itch_file-Safe bytes clock =
      parse_loop-Safe (parse_rounds bytes) bytes (Feed.new clock) (omega arith) (new-Owned clock)

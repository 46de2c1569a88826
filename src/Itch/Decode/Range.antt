-- ===== src/Itch/Decode/Range.antt =====
-- What a decoded message of src/ingestion/ItchParser.cpp holds.
use nanomatch.Base.{
  ℕ, ◌^◌, ◌<◌, sym, true, false, Bool, Bool-cases, inl, inr, List, length, ltb, ◌==◌, arith,
  if◌then◌else◌,
}
use mathlib.Core.Path.{subst}
use nanomatch.Wire.{Reader}
use nanomatch.Wire.Length.{Takes}
use nanomatch.Wire.Range.{bswap-lt}
use nanomatch.Itch.Protocol.Sizes.{
  add_order-Takes, add_order_attributed-Takes, order_executed-Takes,
  order_executed_with_price-Takes, order_cancel-Takes, order_delete-Takes, order_replace-Takes,
}
use nanomatch.Itch.Decode.{
  Message, add, executed, canceled, deleted, replaced, Decoded, message, skipped, past_end, cast,
  guarded, decode,
}

-- The fields fit `uint16_t`, `uint32_t` and `uint64_t`.
abbrev pub InWords : Message → Type 0
InWords (add locate id side price shares) =
    (locate < 2 ^ 16) × (id < 2 ^ 64) × (price < 2 ^ 32) × (shares < 2 ^ 32)
InWords (executed id shares) = (id < 2 ^ 64) × (shares < 2 ^ 32)
InWords (canceled id shares) = (id < 2 ^ 64) × (shares < 2 ^ 32)
InWords (deleted id) = id < 2 ^ 64
InWords (replaced original new price shares) =
    (original < 2 ^ 64) × (new < 2 ^ 64) × (price < 2 ^ 32) × (shares < 2 ^ 32)

-- No read is past the end of the file, and what is read is in range.
abbrev pub InRange : Decoded → Type 0
InRange (message m) = InWords m
InRange skipped = Unit
InRange past_end = ⊥

guarded-InRange {ℓ} :
    {A : Type ℓ} (size : ℕ) (read : Reader A) (f : A → Message) (payload : List ℕ)
    → Takes size read
    → ((a : A) → InWords (f a))
    → InRange (guarded size read f payload)
guarded-InRange size read f payload t fits = elim (Bool-cases (ltb (length payload) size)) [
  | inl short ↦ rw short tt
  | inr long ↦
      let (a, rest, got, left) = t.taken payload (ground (arith, long)) in
      rw long (subst (λ o. InRange (cast o f)) (sym got) (fits a))
]

either-InRange : (b : Bool) (x y : Decoded) → InRange x → InRange y → InRange (if b then x else y)
either-InRange true x y h k = h
either-InRange false x y h k = k

-- For any type and any payload, the switch reads no byte past the end, and the fields of the
-- message that it decodes fit 16 bits for the locate, 64 for ids and 32 for prices and quantities.
pub decode-InRange : (t : ℕ) (payload : List ℕ) → InRange (decode t payload)
unfolding decode
decode-InRange t payload =
    let id = bswap-lt 8 in
    let quantity = bswap-lt 4 in
    either-InRange (t == b'A') _ _
      (guarded-InRange _ _ _ payload add_order-Takes
        (λ m. (bswap-lt 2 _, id _, quantity _, quantity _)))
      (either-InRange (t == b'F') _ _
        (guarded-InRange _ _ _ payload add_order_attributed-Takes
          (λ m. (bswap-lt 2 _, id _, quantity _, quantity _)))
        (either-InRange (t == b'E') _ _
          (guarded-InRange _ _ _ payload order_executed-Takes (λ m. (id _, quantity _)))
          (either-InRange (t == b'C') _ _
            (guarded-InRange _ _ _ payload order_executed_with_price-Takes
              (λ m. (id _, quantity _)))
            (either-InRange (t == b'X') _ _
              (guarded-InRange _ _ _ payload order_cancel-Takes (λ m. (id _, quantity _)))
              (either-InRange (t == b'D') _ _
                (guarded-InRange _ _ _ payload order_delete-Takes (λ m. id _))
                (either-InRange (t == b'U') _ _
                  (guarded-InRange _ _ _ payload order_replace-Takes
                    (λ m. (id _, id _, quantity _, quantity _)))
                  tt))))))

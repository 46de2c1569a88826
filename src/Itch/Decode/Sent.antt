-- ===== src/Itch/Decode/Sent.antt =====
-- The messages as the exchange sends them, against the reads of src/ingestion/ItchParser.cpp.
use nanomatch.Base.{
  ℕ, ◌^◌, ◌<◌, ◌≤◌, ◌≡◌, refl, ◌∙◌, ap, false, List, [], ◌++◌, length, length-append, ltb, arith,
}
use mathlib.Core.Path.{subst}
use mathlib.Core.List.{append-nil}
use nanomatch.Wire.{Reader}
use nanomatch.Wire.Order.{
  wire, Reads, pure-Reads, bind-Reads, word-Reads, chars-Reads, bswap-loaded, length-wire,
  loaded_byte,
}
use nanomatch.Itch.Protocol.Read.{
  read_timestamp, read_add_order, read_add_order_attributed, read_order_executed,
  read_order_executed_with_price, read_order_cancel, read_order_delete, read_order_replace,
}
use nanomatch.Itch.Protocol.Sizes.{
  sizeof_add_order, sizeof_add_order_attributed, sizeof_order_executed,
  sizeof_order_executed_with_price, sizeof_order_cancel, sizeof_order_delete, sizeof_order_replace,
}
use nanomatch.Itch.Decode.{
  added, added_attributed, was_executed, was_executed_with_price, was_canceled, was_deleted,
  was_replaced, Message, add, executed, canceled, deleted, replaced, message, cast, guarded,
  side_of, decode,
}

-- The fields in the order of the specification, each number as itself.
pub data Sent : Type 0 where
  sent_add_order :
      (locate tracking : ℕ) (stamp : List ℕ) (id side shares : ℕ) (stock : List ℕ) (price : ℕ)
      → Sent
  sent_add_order_attributed :
      (locate tracking : ℕ) (stamp : List ℕ) (id side shares : ℕ) (stock : List ℕ) (price : ℕ)
      (attribution : List ℕ)
      → Sent
  sent_order_executed : (locate tracking : ℕ) (stamp : List ℕ) (id shares match : ℕ) → Sent
  sent_order_executed_with_price :
      (locate tracking : ℕ) (stamp : List ℕ) (id shares match printable at : ℕ) → Sent
  sent_order_cancel : (locate tracking : ℕ) (stamp : List ℕ) (id shares : ℕ) → Sent
  sent_order_delete : (locate tracking : ℕ) (stamp : List ℕ) (id : ℕ) → Sent
  sent_order_replace : (locate tracking : ℕ) (stamp : List ℕ) (original new shares price : ℕ) → Sent

abbrev pub type_of : Sent → ℕ
type_of (sent_add_order _ _ _ _ _ _ _ _) = b'A'
type_of (sent_add_order_attributed _ _ _ _ _ _ _ _ _) = b'F'
type_of (sent_order_executed _ _ _ _ _ _) = b'E'
type_of (sent_order_executed_with_price _ _ _ _ _ _ _ _) = b'C'
type_of (sent_order_cancel _ _ _ _ _) = b'X'
type_of (sent_order_delete _ _ _ _) = b'D'
type_of (sent_order_replace _ _ _ _ _ _ _) = b'U'

abbrev pub body : Sent → List ℕ
body (sent_add_order locate tracking stamp id side shares stock price) =
    wire 2 locate
    ++ (wire 2 tracking
        ++ (stamp
            ++ (wire 8 id ++ (wire 1 side ++ (wire 4 shares ++ (stock ++ (wire 4 price ++ [])))))))
body (sent_add_order_attributed locate tracking stamp id side shares stock price attribution) =
    wire 2 locate
    ++ (wire 2 tracking
        ++ (stamp
            ++ (wire 8 id
                ++ (wire 1 side
                    ++ (wire 4 shares ++ (stock ++ (wire 4 price ++ (attribution ++ []))))))))
body (sent_order_executed locate tracking stamp id shares match) =
    wire 2 locate
    ++ (wire 2 tracking ++ (stamp ++ (wire 8 id ++ (wire 4 shares ++ (wire 8 match ++ [])))))
body (sent_order_executed_with_price locate tracking stamp id shares match printable at) =
    wire 2 locate
    ++ (wire 2 tracking
        ++ (stamp
            ++ (wire 8 id
                ++ (wire 4 shares ++ (wire 8 match ++ (wire 1 printable ++ (wire 4 at ++ [])))))))
body (sent_order_cancel locate tracking stamp id shares) =
    wire 2 locate ++ (wire 2 tracking ++ (stamp ++ (wire 8 id ++ (wire 4 shares ++ []))))
body (sent_order_delete locate tracking stamp id) =
    wire 2 locate ++ (wire 2 tracking ++ (stamp ++ (wire 8 id ++ [])))
body (sent_order_replace locate tracking stamp original new shares price) =
    wire 2 locate
    ++ (wire 2 tracking
        ++ (stamp ++ (wire 8 original ++ (wire 8 new ++ (wire 4 shares ++ (wire 4 price ++ []))))))

-- Each number fits its field, and each text fills its field.
abbrev pub Fits : Sent → Type 0
Fits (sent_add_order locate tracking stamp id side shares stock price) =
    (locate < 256 ^ 2)
    × (tracking < 256 ^ 2)
    × (length stamp ≡ 6)
    × (id < 256 ^ 8)
    × (side < 256 ^ 1)
    × (shares < 256 ^ 4)
    × (length stock ≡ 8)
    × (price < 256 ^ 4)
Fits (sent_add_order_attributed locate tracking stamp id side shares stock price attribution) =
    (locate < 256 ^ 2)
    × (tracking < 256 ^ 2)
    × (length stamp ≡ 6)
    × (id < 256 ^ 8)
    × (side < 256 ^ 1)
    × (shares < 256 ^ 4)
    × (length stock ≡ 8)
    × (price < 256 ^ 4)
    × (length attribution ≡ 4)
Fits (sent_order_executed locate tracking stamp id shares match) =
    (locate < 256 ^ 2)
    × (tracking < 256 ^ 2)
    × (length stamp ≡ 6)
    × (id < 256 ^ 8)
    × (shares < 256 ^ 4)
    × (match < 256 ^ 8)
Fits (sent_order_executed_with_price locate tracking stamp id shares match printable at) =
    (locate < 256 ^ 2)
    × (tracking < 256 ^ 2)
    × (length stamp ≡ 6)
    × (id < 256 ^ 8)
    × (shares < 256 ^ 4)
    × (match < 256 ^ 8)
    × (printable < 256 ^ 1)
    × (at < 256 ^ 4)
Fits (sent_order_cancel locate tracking stamp id shares) =
    (locate < 256 ^ 2)
    × (tracking < 256 ^ 2)
    × (length stamp ≡ 6)
    × (id < 256 ^ 8)
    × (shares < 256 ^ 4)
Fits (sent_order_delete locate tracking stamp id) =
    (locate < 256 ^ 2) × (tracking < 256 ^ 2) × (length stamp ≡ 6) × (id < 256 ^ 8)
Fits (sent_order_replace locate tracking stamp original new shares price) =
    (locate < 256 ^ 2)
    × (tracking < 256 ^ 2)
    × (length stamp ≡ 6)
    × (original < 256 ^ 8)
    × (new < 256 ^ 8)
    × (shares < 256 ^ 4)
    × (price < 256 ^ 4)

abbrev pub meaning : Sent → Message
meaning (sent_add_order locate tracking stamp id side shares stock price) =
    add locate id (side_of side) price shares
meaning (sent_add_order_attributed locate tracking stamp id side shares stock price attribution) =
    add locate id (side_of side) price shares
meaning (sent_order_executed locate tracking stamp id shares match) = executed id shares
meaning (sent_order_executed_with_price locate tracking stamp id shares match printable at) =
    executed id shares
meaning (sent_order_cancel locate tracking stamp id shares) = canceled id shares
meaning (sent_order_delete locate tracking stamp id) = deleted id
meaning (sent_order_replace locate tracking stamp original new shares price) =
    replaced original new price shares

timestamp-Reads :
    (stamp : List ℕ) → length stamp ≡ 6 → Reads read_timestamp stamp (record { bytes = stamp })
unfolding read_timestamp
timestamp-Reads stamp e =
    subst (λ bytes. Reads read_timestamp bytes (record { bytes = stamp })) (append-nil stamp)
      (bind-Reads _ (chars-Reads 6 stamp e) (pure-Reads _))

guarded-Reads {ℓ} :
    {A : Type ℓ} (size : ℕ) (read : Reader A) (f : A → Message) (bytes rest : List ℕ) (a : A)
    → Reads read bytes a
    → size ≤ length bytes
    → guarded size read f (bytes ++ rest) ≡ message (f a)
guarded-Reads size read f bytes rest a r long =
    let fits : ltb (length (bytes ++ rest)) size ≡ false =
      ground (arith, long, length-append bytes rest) in
    rw fits (ap (λ o. cast o f) (r.back rest))

-- What the switch makes of a message that was sent, whatever follows it in the file.
pub decode-body :
    (s : Sent) (rest : List ℕ) → Fits s → decode (type_of s) (body s ++ rest) ≡ message (meaning s)
unfolding decode read_add_order read_add_order_attributed read_order_executed
    read_order_executed_with_price read_order_cancel read_order_delete read_order_replace
decode-body (sent_add_order locate tracking stamp id side shares stock price) rest
      (h0, h1, h2, h3, h4, h5, h6, h7) =
    let long : sizeof_add_order
        ≤ length (body (sent_add_order locate tracking stamp id side shares stock price)) =
      simp (length-append, length-wire) (omega (arith, h2, h6)) in
    guarded-Reads sizeof_add_order read_add_order added
      (body (sent_add_order locate tracking stamp id side shares stock price)) rest _
      (bind-Reads _ (word-Reads 2 locate) (
        bind-Reads _ (word-Reads 2 tracking) (
          bind-Reads _ (timestamp-Reads stamp h2) (
            bind-Reads _ (word-Reads 8 id) (
              bind-Reads _ (word-Reads 1 side) (
                bind-Reads _ (word-Reads 4 shares) (
                  bind-Reads _ (chars-Reads 8 stock h6)
                    (bind-Reads _ (word-Reads 4 price) (pure-Reads _)))))))))
      long
    ∙ rw
        (
          bswap-loaded 2 locate h0,
          bswap-loaded 8 id h3,
          loaded_byte side h4,
          bswap-loaded 4 shares h5,
          bswap-loaded 4 price h7,
        )
        refl
decode-body (sent_add_order_attributed locate tracking stamp id side shares stock price attribution)
      rest (h0, h1, h2, h3, h4, h5, h6, h7, h8) =
    let long : sizeof_add_order_attributed
        ≤ length (
            body (
              sent_add_order_attributed locate tracking stamp id side shares stock price
                attribution)) =
      simp (length-append, length-wire) (omega (arith, h2, h6, h8)) in
    guarded-Reads sizeof_add_order_attributed read_add_order_attributed added_attributed
      (body
        (sent_add_order_attributed locate tracking stamp id side shares stock price attribution))
      rest _
      (bind-Reads _ (word-Reads 2 locate) (
        bind-Reads _ (word-Reads 2 tracking) (
          bind-Reads _ (timestamp-Reads stamp h2) (
            bind-Reads _ (word-Reads 8 id) (
              bind-Reads _ (word-Reads 1 side) (
                bind-Reads _ (word-Reads 4 shares) (
                  bind-Reads _ (chars-Reads 8 stock h6) (
                    bind-Reads _ (word-Reads 4 price)
                      (bind-Reads _ (chars-Reads 4 attribution h8) (pure-Reads _))))))))))
      long
    ∙ rw
        (
          bswap-loaded 2 locate h0,
          bswap-loaded 8 id h3,
          loaded_byte side h4,
          bswap-loaded 4 shares h5,
          bswap-loaded 4 price h7,
        )
        refl
decode-body (sent_order_executed locate tracking stamp id shares match) rest
      (h0, h1, h2, h3, h4, h5) =
    let long : sizeof_order_executed
        ≤ length (body (sent_order_executed locate tracking stamp id shares match)) =
      simp (length-append, length-wire) (omega (arith, h2)) in
    guarded-Reads sizeof_order_executed read_order_executed was_executed
      (body (sent_order_executed locate tracking stamp id shares match)) rest _
      (bind-Reads _ (word-Reads 2 locate) (
        bind-Reads _ (word-Reads 2 tracking) (
          bind-Reads _ (timestamp-Reads stamp h2) (
            bind-Reads _ (word-Reads 8 id) (
              bind-Reads _ (word-Reads 4 shares)
                (bind-Reads _ (word-Reads 8 match) (pure-Reads _)))))))
      long
    ∙ rw (bswap-loaded 8 id h3, bswap-loaded 4 shares h4) refl
decode-body (sent_order_executed_with_price locate tracking stamp id shares match printable at) rest
      (h0, h1, h2, h3, h4, h5, h6, h7) =
    let long : sizeof_order_executed_with_price
        ≤ length (
            body
              (sent_order_executed_with_price locate tracking stamp id shares match printable at)) =
      simp (length-append, length-wire) (omega (arith, h2)) in
    guarded-Reads sizeof_order_executed_with_price read_order_executed_with_price
      was_executed_with_price
      (body (sent_order_executed_with_price locate tracking stamp id shares match printable at))
      rest _
      (bind-Reads _ (word-Reads 2 locate) (
        bind-Reads _ (word-Reads 2 tracking) (
          bind-Reads _ (timestamp-Reads stamp h2) (
            bind-Reads _ (word-Reads 8 id) (
              bind-Reads _ (word-Reads 4 shares) (
                bind-Reads _ (word-Reads 8 match) (
                  bind-Reads _ (word-Reads 1 printable)
                    (bind-Reads _ (word-Reads 4 at) (pure-Reads _)))))))))
      long
    ∙ rw (bswap-loaded 8 id h3, bswap-loaded 4 shares h4) refl
decode-body (sent_order_cancel locate tracking stamp id shares) rest (h0, h1, h2, h3, h4) =
    let long : sizeof_order_cancel
        ≤ length (body (sent_order_cancel locate tracking stamp id shares)) =
      simp (length-append, length-wire) (omega (arith, h2)) in
    guarded-Reads sizeof_order_cancel read_order_cancel was_canceled
      (body (sent_order_cancel locate tracking stamp id shares)) rest _
      (bind-Reads _ (word-Reads 2 locate) (
        bind-Reads _ (word-Reads 2 tracking) (
          bind-Reads _ (timestamp-Reads stamp h2)
            (bind-Reads _ (word-Reads 8 id) (bind-Reads _ (word-Reads 4 shares) (pure-Reads _))))))
      long
    ∙ rw (bswap-loaded 8 id h3, bswap-loaded 4 shares h4) refl
decode-body (sent_order_delete locate tracking stamp id) rest (h0, h1, h2, h3) =
    let long : sizeof_order_delete ≤ length (body (sent_order_delete locate tracking stamp id)) =
      simp (length-append, length-wire) (omega (arith, h2)) in
    guarded-Reads sizeof_order_delete read_order_delete was_deleted
      (body (sent_order_delete locate tracking stamp id)) rest _
      (bind-Reads _ (word-Reads 2 locate) (
        bind-Reads _ (word-Reads 2 tracking) (
          bind-Reads _ (timestamp-Reads stamp h2) (bind-Reads _ (word-Reads 8 id) (pure-Reads _)))))
      long
    ∙ rw (bswap-loaded 8 id h3) refl
decode-body (sent_order_replace locate tracking stamp original new shares price) rest
      (h0, h1, h2, h3, h4, h5, h6) =
    let long : sizeof_order_replace
        ≤ length (body (sent_order_replace locate tracking stamp original new shares price)) =
      simp (length-append, length-wire) (omega (arith, h2)) in
    guarded-Reads sizeof_order_replace read_order_replace was_replaced
      (body (sent_order_replace locate tracking stamp original new shares price)) rest _
      (bind-Reads _ (word-Reads 2 locate) (
        bind-Reads _ (word-Reads 2 tracking) (
          bind-Reads _ (timestamp-Reads stamp h2) (
            bind-Reads _ (word-Reads 8 original) (
              bind-Reads _ (word-Reads 8 new) (
                bind-Reads _ (word-Reads 4 shares)
                  (bind-Reads _ (word-Reads 4 price) (pure-Reads _))))))))
      long
    ∙ rw
        (
          bswap-loaded 8 original h3,
          bswap-loaded 8 new h4,
          bswap-loaded 4 shares h5,
          bswap-loaded 4 price h6,
        )
        refl

-- ===== src/WebSocket/Reading.antt =====
-- The stream that `poll_read` of src/websocket.rs makes of the frames.
use pipistrelle.Prelude.{
  ℕ, zero, suc, ◌+◌, ◌≤◌, ◌<◌, ◌≡◌, refl, ap, arith, true, false, Bool-cases, ◌⊎◌, inl, inr, List,
  [], ◌∷◌, ◌++◌, append_assoc, length, length-drop, take, drop,
}
use pipistrelle.WebSocket.{
  binary, text, close, ping, pong, other, Next, message, broken, ended, WebSocketStreamAdapter,
  ready, failed, pending, ReadResult, copy, has_data, refill, on_next, poll_read,
}

-- The bytes of the frames with data, up to the end of the stream or an error.
abbrev pub content : List Next → List ℕ
content [] = []
content (message (binary bin) ∷ nexts) = bin ++ content nexts
content (message (text txt) ∷ nexts) = txt ++ content nexts
content (message close ∷ nexts) = []
content (message ping ∷ nexts) = content nexts
content (message pong ∷ nexts) = content nexts
content (message other ∷ nexts) = content nexts
content (broken ∷ nexts) = []
content (ended ∷ nexts) = []

-- The bytes that are still to be read.
abbrev pub stream : WebSocketStreamAdapter → List Next → List ℕ
stream this nexts = drop this.read_cursor this.read_buffer ++ content nexts

-- The end of the frames: `close` or `None`, an error, or neither so far.
pub data End : Type 0 where
  at_eof at_error open_end : End

abbrev pub end_of : List Next → End
end_of [] = open_end
end_of (message (binary bin) ∷ nexts) = end_of nexts
end_of (message (text txt) ∷ nexts) = end_of nexts
end_of (message close ∷ nexts) = at_eof
end_of (message ping ∷ nexts) = end_of nexts
end_of (message pong ∷ nexts) = end_of nexts
end_of (message other ∷ nexts) = end_of nexts
end_of (broken ∷ nexts) = at_error
end_of (ended ∷ nexts) = at_eof

-- Data is the front of the stream, at most `remaining` bytes and one or more if there is room; a read
-- without data, an error or a pending read stands for the end of an empty stream.
abbrev pub Takes : (remaining : ℕ) → List ℕ → End → ReadResult → Type 0
Takes remaining bytes_left end (ready bytes, this, nexts) =
    ((bytes_left ≡ bytes ++ stream this nexts)
      × (length bytes ≤ remaining)
      × (0 < remaining → 0 < length bytes)
      × (end_of nexts ≡ end))
    ⊎ ((bytes ≡ []) × (bytes_left ≡ []) × (end ≡ at_eof))
Takes remaining bytes_left end (failed, this, nexts) = (bytes_left ≡ []) × (end ≡ at_error)
Takes remaining bytes_left end (pending, this, nexts) = (bytes_left ≡ []) × (end ≡ open_end)

abbrev pub Reads : (remaining : ℕ) → WebSocketStreamAdapter → List Next → ReadResult → Type 0
Reads remaining this nexts = Takes remaining (stream this nexts) (end_of nexts)

module _ {ℓ} {A : Type ℓ} where
  take-drop : (n : ℕ) (xs : List A) → take n xs ++ drop (length (take n xs)) xs ≡ xs
  take-drop zero xs = refl
  take-drop (suc n) [] = refl
  take-drop (suc n) (x ∷ xs) = ap (λ l. x ∷ l) (take-drop n xs)

  drop_nil : (n : ℕ) → drop {A = A} n [] ≡ []
  drop_nil zero = refl
  drop_nil (suc n) = refl

  drop_add : (m n : ℕ) (xs : List A) → drop (m + n) xs ≡ drop n (drop m xs)
  drop_add zero n xs = rw (let e : 0 + n ≡ n = omega arith in e) refl
  drop_add (suc m) n [] = rw (drop_nil (suc m + n), drop_nil n) refl
  drop_add (suc m) n (x ∷ xs) =
      rw (let e : suc m + n ≡ suc (m + n) = omega arith in e) (drop_add m n xs)

  drop_all : (n : ℕ) (xs : List A) → length xs ≤ n → drop n xs ≡ []
  drop_all zero [] h = refl
  drop_all zero (x ∷ xs) h = absurd (omega arith)
  drop_all (suc n) [] h = refl
  drop_all (suc n) (x ∷ xs) h = drop_all n xs (omega arith)

  take_bounds :
      (n : ℕ) (xs : List A)
      → (length (take n xs) ≤ n) × (0 < n → 0 < length xs → 0 < length (take n xs))
  take_bounds zero xs = (omega arith, λ h k. h)
  take_bounds (suc n) [] = (omega arith, λ h k. k)
  take_bounds (suc n) (x ∷ xs) = (omega (arith, take_bounds n xs), λ h k. omega arith)

copy-Reads :
    (remaining : ℕ) (this : WebSocketStreamAdapter) (nexts : List Next)
    → has_data this ≡ true
    → Reads remaining this nexts (copy remaining this nexts)
copy-Reads remaining this nexts e =
    let left = drop this.read_cursor this.read_buffer in
    let bytes = take remaining left in
    let cut : left ++ content nexts
        ≡ bytes ++ (drop (this.read_cursor + length bytes) this.read_buffer ++ content nexts) =
      rw
        (
          drop_add this.read_cursor (length bytes) this.read_buffer,
          ← append_assoc bytes (drop (length bytes) left) (content nexts),
          take-drop remaining left,
        )
        refl in
    let (most, least) = take_bounds remaining left in
    let more : 0 < length left =
      rw (length-drop this.read_cursor this.read_buffer) (ground arith) in
    inl (cut, most, λ h. least h more, refl)

-- The buffer is used up.
used :
    (this : WebSocketStreamAdapter)
    → has_data this ≡ false
    → drop this.read_cursor this.read_buffer ≡ []
used this e = drop_all this.read_cursor this.read_buffer (ground arith)

refilled :
    (bytes : List ℕ) (this : WebSocketStreamAdapter)
    → has_data this ≡ false
    → drop (refill bytes this).read_cursor (refill bytes this).read_buffer ≡ bytes
refilled [] this e = used this e
refilled (b ∷ bytes) this e = refl

on_next-Reads :
    (remaining : ℕ) (loop : WebSocketStreamAdapter → ReadResult) (next : Next)
    (this : WebSocketStreamAdapter) (nexts : List Next)
    → has_data this ≡ false
    → ((this : WebSocketStreamAdapter) → Reads remaining this nexts (loop this))
    → Reads remaining this (next ∷ nexts) (on_next loop next this nexts)
on_next-Reads remaining loop (message (binary bin)) this nexts e rest =
    rw (used this e) (rw (refilled bin this e) at (rest (refill bin this)))
on_next-Reads remaining loop (message (text txt)) this nexts e rest =
    rw (used this e) (rw (refilled txt this e) at (rest (refill txt this)))
on_next-Reads remaining loop (message close) this nexts e rest =
    inr (refl, rw (used this e) refl, refl)
on_next-Reads remaining loop (message ping) this nexts e rest = rest this
on_next-Reads remaining loop (message pong) this nexts e rest = rest this
on_next-Reads remaining loop (message other) this nexts e rest = rest this
on_next-Reads remaining loop broken this nexts e rest = (rw (used this e) refl, refl)
on_next-Reads remaining loop ended this nexts e rest = inr (refl, rw (used this e) refl, refl)

-- A read takes the next bytes of the stream that the frames with data make, whatever other frames stand
-- between them and however they are cut into frames, and no byte is lost, repeated or moved; with room for
-- a byte it has none only at the end of the stream, which empty frames and pings do not feign. An error
-- and a pending read leave no byte unread before them.
pub poll_read-Reads :
    (remaining : ℕ) (this : WebSocketStreamAdapter) (nexts : List Next)
    → Reads remaining this nexts (poll_read remaining this nexts)
unfolding poll_read
poll_read-Reads remaining this [] = elim (Bool-cases (has_data this)) [
  | inl e ↦ rw e (copy-Reads remaining this [] e)
  | inr e ↦ rw (e, used this e) (refl, refl)
]
poll_read-Reads remaining this (next ∷ nexts) = elim (Bool-cases (has_data this)) [
  | inl e ↦ rw e (copy-Reads remaining this (next ∷ nexts) e)
  | inr e ↦ rw e (
      on_next-Reads remaining (λ this. poll_read remaining this nexts) next this nexts e
        λ this. poll_read-Reads remaining this nexts)
]

-- ===== src/Codec/Properties.antt =====
-- What the seven `…Properties` types of src/codec.rs share: the loop of `decode` over the property
-- slice, and the pieces of `encode`. Each type's `match` and fields are in a module below.
pub mod Runs
pub mod Safety
pub mod Connect
pub mod ConnAck
pub mod Publish
pub mod PubAck
pub mod Subscribe
pub mod SubAck
pub mod Disconnect
pub mod Sections
use pipistrelle.Prelude.{
  ℕ, zero, suc, ◌%◌, ◌^◌, List, [], ◌∷◌, ◌++◌, Option, none, some, length, ltb, if◌then◌else◌,
}
use pipistrelle.Codec.Outcome.{Result, Reader, ok, err, stuck, incomplete, ◌>>=◌}
use pipistrelle.Codec.Read.{read_u8, read_str, slice_from, slice_to}
use pipistrelle.Codec.Varint.{decode_varint, encode_varint}
use pipistrelle.Codec.Write.{write_u8, write_str}

-- `(&str, &str)`
abbrev pub UserProperty : Type 0
UserProperty = List ℕ × List ℕ

module _ {A P : Type 0} where
  -- `props.field = Some(read(&mut prop_slice)?)`
  unfoldable pub read_into : Reader A → (A → P) → Reader P
  read_into read put buf = do (val, buf) ← read buf; ok (put val, buf)

-- `props.user_properties.push((read_str(..)?, read_str(..)?))`
module _ {P : Type 0} where
  unfoldable pub read_user_property : (UserProperty → P) → Reader P
  read_user_property put buf = do
    (key, buf) ← read_str buf
    (val, buf) ← read_str buf
    ok (put (key, val), buf)

module _ {P : Type 0} (field : ℕ → P → Reader P) where
  -- `while !prop_slice.is_empty()`: each round reads the identifier's byte at least.
  unfoldable pub properties_loop : ℕ → P → List ℕ → Result P
  properties_loop fuel props [] = ok props
  properties_loop zero props (b ∷ bs) = stuck
  properties_loop (suc fuel) props (b ∷ bs) = do
    (prop_id, prop_slice) ← read_u8 (b ∷ bs)
    (props, prop_slice) ← field prop_id props prop_slice
    properties_loop fuel props prop_slice

  unfoldable pub decode_section : P → Reader P
  decode_section props buf = do
    (prop_len, read) ← decode_varint buf
    buf ← slice_from read buf
    if ltb (length buf) prop_len then err incomplete else do
      prop_slice ← slice_to prop_len buf
      buf ← slice_from prop_len buf
      props ← properties_loop (length prop_slice) props prop_slice
      ok (props, buf)

  -- `decode`, from the type's default
  unfoldable pub decode_properties : P → Reader P
  unfolding decode_section
  decode_properties props [] = ok (props, [])
  decode_properties props (b ∷ bs) = decode_section props (b ∷ bs)

module _ {A : Type 0} where
  -- `if let Some(val) = self.field { temp_buf.push(id); write(val, &mut temp_buf) }`
  unfoldable pub push_some : (A → List ℕ → List ℕ) → ℕ → Option A → List ℕ → List ℕ
  unfolding write_u8
  push_some write id none temp_buf = temp_buf
  push_some write id (some val) temp_buf = write val (write_u8 id temp_buf)

-- `for (k, v) in &self.user_properties`
unfoldable pub push_user_properties : List UserProperty → List ℕ → List ℕ
unfolding write_u8 write_str
push_user_properties [] temp_buf = temp_buf
push_user_properties ((k, v) ∷ us) temp_buf =
    push_user_properties us (write_str v (write_str k (write_u8 0x26 temp_buf)))

-- The end of `encode`: the length of the section and the section.
unfoldable pub push_section : List ℕ → List ℕ → List ℕ
push_section temp_buf buf = encode_varint (length temp_buf % 2 ^ 32) buf ++ temp_buf

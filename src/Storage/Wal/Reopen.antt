-- ===== src/Storage/Wal/Reopen.antt =====
-- crates/roci-storage/src/metadata/log.rs, `append_record` and `open_inner`: what a store has written
-- is what a store that is opened on its file has, also if the file was cut off.
use mathlib.Core.List.{append-nil, append_assoc}
use roci.Base.{
  List, Option, [], ap, arith, false, inl, inr, map, refl, some, suc, sym, zero, ℕ, ◌&&◌, ◌++◌, ◌-◌,
  ◌<◌, ◌^◌, ◌∙◌, ◌∷◌, ◌≡◌,
}
use roci.Base.Eq.{Text, text_eq}
use roci.Base.Lists.{is_empty, length, take, take-map}
use roci.Base.Tests.{Bool-cases, if◌then◌else◌, is_some, leb, nat_beq}
use roci.Base.Word.{le_bytes}
use roci.Storage.Metadata.{MetaOp, apply_in_ram}
use roci.Storage.Ops.{Json, generation_marker, op_value, serialize_op}
use roci.Storage.Ops.RoundTrip.{
  IsRead, IsStorable, deserialize_op-serialize_op, generation_marker-serialize_op,
}
use roci.Storage.Wal.{
  Checksum, FramingMode, HmacKey, LogMetadataStore, Replayed, append_all, append_record, apply_ops,
  apply_payload, encode_header, encode_record, encode_record_raw, framing_mode, mark_or_apply,
  on_payload, replay_log,
}
use roci.Storage.Wal.Replay.{
  AreSmall, frames, frames-append, on_payloads, replay_loop-take, whole_frames,
}
use roci.Storage.Wal.Written.{decode_header-encode_header, length-encode_header}

module _ (c : Checksum) (json : Json) (artifact_of : Text → Option Text)
    (key : Option HmacKey) where
  -- The operations that a log gives back: the format can hold them, JSON reads what it wrote, and the
  -- payload's length fits 32 bits.
  abbrev pub AreLoggable : List MetaOp → Type 0
  AreLoggable [] = Unit {0}
  AreLoggable (op ∷ ops) =
      (IsStorable json op
        × IsRead json (op_value json op)
        × (length (serialize_op json op) < 2 ^ 32))
      × AreLoggable ops

  unfoldable pub payloads : List MetaOp → List Text
  payloads ops = encode_header (framing_mode key) ∷ map (serialize_op json) ops

  map-AreSmall :
      (ops : List MetaOp) → AreLoggable ops → AreSmall c key (map (serialize_op json) ops)
  map-AreSmall [] h = tt
  map-AreSmall (op ∷ ops) h = (h.0.2, map-AreSmall ops h.1)

  pub payloads-AreSmall : (ops : List MetaOp) → AreLoggable ops → AreSmall c key (payloads ops)
  unfolding payloads
  payloads-AreSmall ops h =
      (omega (arith, length-encode_header (framing_mode key)), map-AreSmall ops h)

  pub is_empty-frames : (p : Text) (ps : List Text) → is_empty (frames c key (p ∷ ps)) ≡ false
  unfolding frames encode_record_raw le_bytes
  is_empty-frames p ps = refl

  frames-single : (p : Text) → frames c key (p ∷ []) ≡ encode_record_raw c key p
  unfolding frames
  frames-single p = append-nil (encode_record_raw c key p)

  append_frame :
      (op : MetaOp) (self : LogMetadataStore) (ps : List Text)
      → self.log ≡ frames c key (encode_header (framing_mode key) ∷ ps)
      → (append_record c json artifact_of key op self).log
        ≡ frames c key (encode_header (framing_mode key) ∷ (ps ++ serialize_op json op ∷ []))
  unfolding append_record encode_record
  append_frame op self ps e =
      rw (ap is_empty e ∙ is_empty-frames (encode_header (framing_mode key)) ps, e)
        (sym (
          frames-append c key (encode_header (framing_mode key) ∷ ps) (serialize_op json op ∷ [])
          ∙ ap (λ s. frames c key (encode_header (framing_mode key) ∷ ps) ++ s)
              (frames-single (serialize_op json op))))

  pub append_all-inner :
      (ops : List MetaOp) (self : LogMetadataStore)
      → (append_all c json artifact_of key ops self).inner ≡ apply_ops artifact_of ops self.inner
  unfolding append_all apply_ops append_record
  append_all-inner [] self = refl
  append_all-inner (op ∷ ops) self =
      append_all-inner ops (append_record c json artifact_of key op self)

  pub append_all-generation :
      (ops : List MetaOp) (self : LogMetadataStore)
      → (append_all c json artifact_of key ops self).generation ≡ self.generation
  unfolding append_all append_record
  append_all-generation [] self = refl
  append_all-generation (op ∷ ops) self =
      append_all-generation ops (append_record c json artifact_of key op self)

  append_all-frames :
      (ops : List MetaOp) (self : LogMetadataStore) (ps : List Text)
      → self.log ≡ frames c key (encode_header (framing_mode key) ∷ ps)
      → (append_all c json artifact_of key ops self).log
        ≡ frames c key (encode_header (framing_mode key) ∷ (ps ++ map (serialize_op json) ops))
  unfolding append_all
  append_all-frames [] self ps e = rw (append-nil ps) e
  append_all-frames (op ∷ ops) self ps e =
      append_all-frames ops (append_record c json artifact_of key op self)
        (ps ++ serialize_op json op ∷ []) (append_frame op self ps e)
      ∙ ap (λ qs. frames c key (encode_header (framing_mode key) ∷ qs))
          (append_assoc ps (serialize_op json op ∷ []) (map (serialize_op json) ops))

  on_payload-serialize_op :
      (index : ℕ) (op : MetaOp) (r : Replayed)
      → IsStorable json op
      → IsRead json (op_value json op)
      → on_payload json artifact_of (suc (suc index)) (serialize_op json op) r
        ≡ record r { state = apply_in_ram artifact_of op r.state }
  unfolding on_payload mark_or_apply apply_payload
  on_payload-serialize_op index op r storable read =
      let found : apply_payload json artifact_of (serialize_op json op) r
          ≡ record r { state = apply_in_ram artifact_of op r.state } =
        rw (deserialize_op-serialize_op json op storable read, apply_payload) in
      let not_first : nat_beq (suc (suc index)) 1 ≡ false = ground arith in
      rw (not_first, generation_marker-serialize_op json op read, mark_or_apply)
        (elim (Bool-cases (leb (suc (suc index)) 2)) [
          | inl early ↦ rw early found
          | inr late ↦ rw late found
        ])

  on_payloads-map :
      (ops : List MetaOp) (index : ℕ) (r : Replayed)
      → AreLoggable ops
      → on_payloads c key json artifact_of (suc index) (map (serialize_op json) ops) r
        ≡ record r { state = apply_ops artifact_of ops r.state }
  unfolding on_payloads apply_ops
  on_payloads-map [] index r h = refl
  on_payloads-map (op ∷ ops) index r h =
      ap (on_payloads c key json artifact_of (suc (suc index)) (map (serialize_op json) ops))
        (on_payload-serialize_op index op r h.0.0 h.0.1)
      ∙ on_payloads-map ops (suc index) _ h.1

  -- The store of a file that was not there.
  abbrev pub empty_store : LogMetadataStore
  empty_store = record { generation = 0; inner = []; log = [] }

  pub append_all-payloads :
      (op : MetaOp) (ops : List MetaOp)
      → (append_all c json artifact_of key (op ∷ ops) empty_store).log
        ≡ frames c key (payloads (op ∷ ops))
  unfolding append_all payloads append_record encode_record frames
  append_all-payloads op ops = append_all-frames ops _ (serialize_op json op ∷ []) (
      ap (λ s. encode_record_raw c key (encode_header (framing_mode key)) ++ s)
        (sym (frames-single (serialize_op json op))))

  on_payload-encode_header :
      (mode : FramingMode) (r : Replayed) → on_payload json artifact_of 1 (encode_header mode) r ≡ r
  unfolding on_payload
  on_payload-encode_header mode r =
      ap
        (λ o.
          if nat_beq 1 1 && is_some o
          then r
          else if leb 1 2
          then mark_or_apply (generation_marker json (encode_header mode)) json artifact_of
              (encode_header mode) r
          else apply_payload json artifact_of (encode_header mode) r)
        (decode_header-encode_header mode)

  pub on_payloads-payloads :
      (ops : List MetaOp) (r : Replayed)
      → AreLoggable ops
      → on_payloads c key json artifact_of 0 (payloads ops) r
        ≡ record r { state = apply_ops artifact_of ops r.state }
  unfolding on_payloads payloads
  on_payloads-payloads ops r h =
      ap (on_payloads c key json artifact_of 1 (map (serialize_op json) ops))
        (on_payload-encode_header (framing_mode key) r)
      ∙ on_payloads-map ops 0 r h

  on_payloads-none : (r : Replayed) → on_payloads c key json artifact_of 0 [] r ≡ r
  unfolding on_payloads
  on_payloads-none r = refl

  apply_ops-none : (r : Replayed) → record r { state = apply_ops artifact_of [] r.state } ≡ r
  unfolding apply_ops
  apply_ops-none r = refl

  take-AreLoggable : (n : ℕ) (ops : List MetaOp) → AreLoggable ops → AreLoggable (take n ops)
  take-AreLoggable zero ops h = tt
  take-AreLoggable (suc n) [] h = tt
  take-AreLoggable (suc n) (op ∷ ops) h = (h.0, take-AreLoggable n ops h.1)

  take-payloads : (n : ℕ) (ops : List MetaOp) → take (suc n) (payloads ops) ≡ payloads (take n ops)
  unfolding payloads
  take-payloads n ops =
      ap (λ ps. encode_header (framing_mode key) ∷ ps) (take-map (serialize_op json) n ops)

  on_payloads-take :
      (n : ℕ) (ops : List MetaOp) (r : Replayed)
      → AreLoggable ops
      → on_payloads c key json artifact_of 0 (take n (payloads ops)) r
        ≡ record r { state = apply_ops artifact_of (take (n - 1) ops) r.state }
  on_payloads-take zero ops r h = on_payloads-none r ∙ sym (apply_ops-none r)
  on_payloads-take (suc n) ops r h =
      ap (λ ps. on_payloads c key json artifact_of 0 ps r) (take-payloads n ops)
      ∙ on_payloads-payloads (take n ops) r (take-AreLoggable n ops h)
      ∙ ap (λ m. record r { state = apply_ops artifact_of (take m ops) r.state }) (omega arith)

  -- Replaying the log of these operations, cut off behind `n` bytes.
  pub replay_log-take :
      (ops : List MetaOp) (n : ℕ) (r : Replayed)
      → AreLoggable ops
      → replay_log c json artifact_of key (take n (frames c key (payloads ops))) r
        ≡ some (record r {
          state =
              apply_ops artifact_of (take (whole_frames c key n (payloads ops) - 1) ops) r.state;
        })
  unfolding replay_log
  replay_log-take ops n r h =
      replay_loop-take c key json artifact_of (payloads ops) _ 0 n r (payloads-AreSmall ops h)
        (omega arith)
      ∙ ap some (on_payloads-take (whole_frames c key n (payloads ops)) ops r h)

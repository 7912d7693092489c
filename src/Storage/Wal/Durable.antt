-- ===== src/Storage/Wal/Durable.antt =====
-- crates/roci-storage/src/metadata/log.rs: what survives when a store is opened again, after a clean
-- end, after a crash in the middle of a record, and after writing behind such a record.
use mathlib.Core.List.{append-nil}
use roci.Base.{
  List, Option, [], ap, arith, false, refl, some, sym, ℕ, ◌++◌, ◌+◌, ◌-◌, ◌<◌, ◌^◌, ◌∙◌, ◌∷◌, ◌≡◌,
  ◌≤◌,
}
use roci.Base.Eq.{Text, text_eq}
use roci.Base.Lists.{is_empty, length, take}
use roci.Storage.Metadata.{MetaOp, State}
use roci.Storage.Ops.{Json}
use roci.Storage.Wal.{
  Checksum, HmacKey, LogMetadataStore, Replayed, append_all, apply_ops, check_log_framing,
  compatible, encode_record_raw, framing_mode, fresh, open_checked, open_inner, opened, replay_log,
}
use roci.Storage.Wal.Layout.{AreRecords}
use roci.Storage.Wal.Records.{read_record-torn}
use roci.Storage.Wal.Reopen.{
  AreLoggable, append_all-generation, append_all-inner, append_all-payloads, empty_store,
  is_empty-frames, on_payloads-payloads, payloads, payloads-AreSmall, replay_log-take,
}
use roci.Storage.Wal.Replay.{
  AreSmall, frames, on_payloads, read_record-nil, replay_loop_ends, replay_loop_stops, whole_frames,
}
use roci.Storage.Wal.Written.{check_log_framing-written, header_record}

module _ (c : Checksum) (json : Json) (artifact_of : Text → Option Text)
    (key : Option HmacKey) where
  replay_log-frames :
      (ps : List Text) (r : Replayed)
      → AreSmall c key ps
      → replay_log c json artifact_of key (frames c key ps) r
        ≡ some (on_payloads c key json artifact_of 0 ps r)
  unfolding replay_log
  replay_log-frames ps r small =
      ap (λ s. replay_log c json artifact_of key s r) (sym (append-nil (frames c key ps)))
      ∙ replay_loop_stops c key json artifact_of ps _ 0 [] r small (read_record-nil c key)
          (omega arith)

  replay_log-payloads :
      (ops : List MetaOp) (r : Replayed)
      → AreLoggable c json artifact_of key ops
      → replay_log c json artifact_of key (frames c key (payloads c json artifact_of key ops)) r
        ≡ some (record r { state = apply_ops artifact_of ops r.state })
  replay_log-payloads ops r h =
      replay_log-frames (payloads c json artifact_of key ops) r
        (payloads-AreSmall c json artifact_of key ops h)
      ∙ ap some (on_payloads-payloads c json artifact_of key ops r h)

  is_empty-payloads :
      (ops : List MetaOp) → is_empty (frames c key (payloads c json artifact_of key ops)) ≡ false
  unfolding payloads
  is_empty-payloads ops = is_empty-frames c json artifact_of key _ _

  check_log_framing-payloads :
      (ops : List MetaOp)
      → check_log_framing c
          (frames c key (payloads c json artifact_of key ops))
          (framing_mode key)
          key
        ≡ compatible
  unfolding payloads frames header_record
  check_log_framing-payloads ops = check_log_framing-written c key _

  -- What `open_inner` makes of a replay that gives a store's fields.
  opened-replayed :
      (self : LogMetadataStore) (g : ℕ) (state : State) (replayed : Option Replayed)
      → self.generation ≡ g
      → self.inner ≡ state
      → replayed ≡ some (record { generation = g; state = state })
      → opened self.log replayed ≡ some self
  opened-replayed self g state replayed e f found =
      ap (opened self.log) found
      ∙ (λ i. some (record { generation = sym e i; inner = sym f i; log = self.log }))

  -- A log that this store writes from an empty file, under the same key, is read back on opening: the
  -- store that is opened has the same bytes, the same state and the same generation, if every operation
  -- can be held by the format and is read back by JSON, and no payload has 2 ^ 32 bytes.
  pub open_inner-append_all :
      (ops : List MetaOp)
      → AreLoggable c json artifact_of key ops
      → open_inner c json artifact_of key
          (append_all c json artifact_of key ops (empty_store c json artifact_of key)).log
        ≡ some (append_all c json artifact_of key ops (empty_store c json artifact_of key))
  unfolding append_all open_inner open_checked
  open_inner-append_all [] h = refl
  open_inner-append_all (op ∷ ops) h =
      let self =
        append_all c json artifact_of key (op ∷ ops) (empty_store c json artifact_of key) in
      let e = append_all-payloads c json artifact_of key op ops in
      let nonempty : is_empty self.log ≡ false = ap is_empty e ∙ is_empty-payloads (op ∷ ops) in
      let found : check_log_framing c self.log (framing_mode key) key ≡ compatible =
        ap (λ s. check_log_framing c s (framing_mode key) key) e
        ∙ check_log_framing-payloads (op ∷ ops) in
      let replayed : replay_log c json artifact_of key self.log fresh
          ≡ some (record { generation = 0; state = apply_ops artifact_of (op ∷ ops) [] }) =
        ap (λ s. replay_log c json artifact_of key s fresh) e
        ∙ replay_log-payloads (op ∷ ops) fresh h in
      rw (nonempty, found)
        (opened-replayed self 0 _ _
          (append_all-generation c json artifact_of key (op ∷ ops)
            (empty_store c json artifact_of key))
          (append_all-inner c json artifact_of key (op ∷ ops) (empty_store c json artifact_of key))
          replayed)

  -- After a crash, when only the first `n` bytes of a log of these operations are there, replay gives the
  -- state after exactly the operations whose records lie whole within these bytes: the number of whole
  -- records, less the header's, is taken from the front.
  pub replay_log_after_crash :
      (op : MetaOp) (ops : List MetaOp) (n : ℕ)
      → AreLoggable c json artifact_of key (op ∷ ops)
      → replay_log c json artifact_of key
          (take n
            (append_all c json artifact_of key (op ∷ ops) (empty_store c json artifact_of key)).log)
          fresh
        ≡ some (record {
          generation = 0;
          state =
              apply_ops artifact_of
                (take
                  (whole_frames c key n (payloads c json artifact_of key (op ∷ ops)) - 1)
                  (op ∷ ops))
                [];
        })
  replay_log_after_crash op ops n h =
      ap (λ s. replay_log c json artifact_of key (take n s) fresh)
        (append_all-payloads c json artifact_of key op ops)
      ∙ replay_log-take c json artifact_of key (op ∷ ops) n fresh h

  -- Behind a record that was cut off after its length, at least 8 of its bytes being there, what is
  -- appended is not replayed, as long as it does not fill up the missing bytes of that record.
  pub replay_log_behind_torn :
      (ps : List Text) (torn appended : Text) (n : ℕ) (r : Replayed)
      → AreSmall c key ps
      → length torn < 2 ^ 32
      → 8 ≤ n
      → n + length appended < length (encode_record_raw c key torn)
      → replay_log c json artifact_of key
          (frames c key ps ++ (take n (encode_record_raw c key torn) ++ appended))
          r
        ≡ replay_log c json artifact_of key (frames c key ps) r
  unfolding replay_log
  replay_log_behind_torn ps torn appended n r small small' eight short =
      replay_loop_stops c key json artifact_of ps _ 0 _ r small
        (read_record-torn c key torn appended n small' eight short) (omega arith)
      ∙ sym (replay_log-frames ps r small)

  -- Replay of any bytes comes to an end, and what it did is the effect of a list of payloads whose records
  -- the bytes begin with, one behind the other: each is its length and its checksum in four bytes each, the
  -- payload, and under a key 32 bytes that the key verifies as the payload's tag.
  pub replay_log_ends :
      (bytes : Text) (r : Replayed)
      → (ps : List Text) × AreRecords c key bytes ps
        × (replay_log c json artifact_of key bytes r
            ≡ some (on_payloads c key json artifact_of 0 ps r))
  unfolding replay_log
  replay_log_ends bytes r =
      replay_loop_ends c key json artifact_of (length bytes) 0 bytes r (omega arith)

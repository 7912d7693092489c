-- ===== src/Storage/Wal/Replay.antt =====
-- crates/roci-storage/src/metadata/log.rs, `replay_log`: the loop ends, it applies what the key
-- accepts, and on a log that was cut off it applies the whole records in front of the cut.
use mathlib.Core.List.{append_assoc}
use roci.Base.{
  List, Option, [], ap, arith, inl, inr, none, refl, some, suc, sym, zero, ℕ, ◌++◌, ◌-◌, ◌<◌, ◌^◌,
  ◌∙◌, ◌∷◌, ◌≡◌, ◌≤◌,
}
use roci.Base.Eq.{Text, text_eq}
use roci.Base.Lists.{length, length-append, take, take-append_above, take-append_below, take-nil}
use roci.Base.Tests.{Bool-cases, Option-cases, if◌then◌else◌, ltb, ltb→lt}
use roci.Storage.Ops.{Json}
use roci.Storage.Wal.{
  Checksum, HmacKey, Replayed, encode_record_raw, on_payload, read_record, replay_loop,
}
use roci.Storage.Wal.Layout.{AreRecords, read_record-eq-some}
use roci.Storage.Wal.Records.{
  length-encode_record_raw, read_record-cut, read_record-encode_record_raw,
}

module _ (c : Checksum) (key : Option HmacKey) where
  -- Records framed one after another.
  unfoldable pub frames : List Text → Text
  frames [] = []
  frames (p ∷ ps) = encode_record_raw c key p ++ frames ps

  pub frames-append : (ps qs : List Text) → frames (ps ++ qs) ≡ frames ps ++ frames qs
  unfolding frames
  frames-append [] qs = refl
  frames-append (p ∷ ps) qs =
      ap (λ s. encode_record_raw c key p ++ s) (frames-append ps qs)
      ∙ sym (append_assoc (encode_record_raw c key p) (frames ps) (frames qs))

  -- How many whole records fit into so many bytes.
  unfoldable pub whole_frames : ℕ → List Text → ℕ
  whole_frames n [] = 0
  whole_frames n (p ∷ ps) =
      let size = length (encode_record_raw c key p) in
      let more_of = whole_frames (n - size) ps in if ltb n size then 0 else suc more_of

  abbrev pub AreSmall : List Text → Type 0
  AreSmall [] = Unit {0}
  AreSmall (p ∷ ps) = (length p < 2 ^ 32) × AreSmall ps

  pub whole_frames_all :
      (ps : List Text) (n : ℕ) → length (frames ps) ≤ n → whole_frames n ps ≡ length ps
  unfolding whole_frames frames
  whole_frames_all [] n h = refl
  whole_frames_all (p ∷ ps) n h = ground (
    arith,
    length-append (encode_record_raw c key p) (frames ps),
    whole_frames_all ps (n - length (encode_record_raw c key p)),
  )

  pub read_record-nil : read_record c key [] ≡ none
  unfolding read_record
  read_record-nil = refl

  -- What the loop does with the payloads that it reads.
  module _ (json : Json) (artifact_of : Text → Option Text) where
    unfoldable pub on_payloads : (index : ℕ) → List Text → Replayed → Replayed
    on_payloads index [] r = r
    on_payloads index (p ∷ ps) r =
        on_payloads (suc index) ps (on_payload json artifact_of (suc index) p r)

    -- The loop's result where nothing is read, and where a record is.
    replay_loop-none :
        (fuel index : ℕ) (bytes : Text) (r : Replayed)
        → read_record c key bytes ≡ none
        → replay_loop c json artifact_of key fuel index bytes r ≡ some r
    unfolding replay_loop
    replay_loop-none zero index bytes r h = rw (h, replay_loop)
    replay_loop-none (suc fuel) index bytes r h = rw (h, replay_loop)

    replay_loop-some :
        (fuel index : ℕ) (bytes payload rest : Text) (r : Replayed)
        → read_record c key bytes ≡ some (payload, rest)
        → replay_loop c json artifact_of key (suc fuel) index bytes r
          ≡ replay_loop c json artifact_of key fuel
              (suc index)
              rest
              (on_payload json artifact_of (suc index) payload r)
    unfolding replay_loop
    replay_loop-some fuel index bytes payload rest r h = rw (h, replay_loop)

    -- The round that reads a whole record, with any fuel that is enough.
    replay_loop-whole :
        (p rest : Text) (fuel index : ℕ) (r r' : Replayed)
        → length p < 2 ^ 32
        → length (encode_record_raw c key p ++ rest) ≤ fuel
        → ((f : ℕ)
            → length rest ≤ f
            → replay_loop c json artifact_of key f
                (suc index)
                rest
                (on_payload json artifact_of (suc index) p r)
              ≡ some r')
        → replay_loop c json artifact_of key fuel index (encode_record_raw c key p ++ rest) r
          ≡ some r'
    replay_loop-whole p rest zero index r r' small enough ih = absurd (
        omega
          (arith, length-append (encode_record_raw c key p) rest, length-encode_record_raw c key p))
    replay_loop-whole p rest (suc fuel) index r r' small enough ih =
        replay_loop-some fuel index _ p rest r (read_record-encode_record_raw c key p rest small)
        ∙ ih fuel (
            omega (
              arith,
              length-append (encode_record_raw c key p) rest,
              length-encode_record_raw c key p,
            ))

    pub replay_loop-take :
        (ps : List Text) (fuel index n : ℕ) (r : Replayed)
        → AreSmall ps
        → length (take n (frames ps)) ≤ fuel
        → replay_loop c json artifact_of key fuel index (take n (frames ps)) r
          ≡ some (on_payloads index (take (whole_frames n ps) ps) r)
    unfolding frames whole_frames on_payloads
    replay_loop-take [] fuel index n r small enough =
        rw (take-nil n) (replay_loop-none fuel index [] r (read_record-nil))
    replay_loop-take (p ∷ ps) fuel index n r (small, smalls) enough =
        let record_bytes = encode_record_raw c key p in
        elim (Bool-cases (ltb n (length record_bytes))) [
          | inl cut ↦
              rw (take-append_below n record_bytes (frames ps) (ground arith), cut)
                (replay_loop-none fuel index (take n record_bytes) r
                  (read_record-cut c key p n small (ltb→lt _ _ cut)))
          | inr within ↦
              let split = take-append_above n record_bytes (frames ps) (ground arith) in
              let behind = n - length record_bytes in
              rw (split, within)
                (replay_loop-whole p (take behind (frames ps)) fuel index r _ small
                  (rw (← split) enough)
                  (λ f h.
                    replay_loop-take ps f (suc index) behind
                      (on_payload json artifact_of (suc index) p r) smalls h))
        ]

    -- The loop stops at bytes that are no record, whatever they are.
    pub replay_loop_stops :
        (ps : List Text) (fuel index : ℕ) (rest : Text) (r : Replayed)
        → AreSmall ps
        → read_record c key rest ≡ none
        → length (frames ps ++ rest) ≤ fuel
        → replay_loop c json artifact_of key fuel index (frames ps ++ rest) r
          ≡ some (on_payloads index ps r)
    unfolding frames on_payloads
    replay_loop_stops [] fuel index rest r small stop enough =
        replay_loop-none fuel index rest r stop
    replay_loop_stops (p ∷ ps) fuel index rest r (small, smalls) stop enough =
        let assoc = append_assoc (encode_record_raw c key p) (frames ps) rest in
        rw assoc (
          replay_loop-whole p (frames ps ++ rest) fuel index r _ small (rw (← assoc) enough) (λ f h.
            replay_loop_stops ps f (suc index) rest (on_payload json artifact_of (suc index) p r)
              smalls stop h))

    -- Every round takes eight bytes at least; what it applies carries a tag that the key accepts.
    pub replay_loop_ends :
        (fuel index : ℕ) (bytes : Text) (r : Replayed)
        → length bytes ≤ fuel
        → (ps : List Text) × AreRecords c key bytes ps
          × (replay_loop c json artifact_of key fuel index bytes r ≡ some (on_payloads index ps r))
    unfolding on_payloads
    replay_loop_ends zero index bytes r h = elim (Option-cases (read_record c key bytes)) [
      | inl stop ↦ ([], tt, replay_loop-none zero index bytes r stop)
      | inr ((p, rest), e) ↦ absurd (omega (arith, (read_record-eq-some c key bytes p rest e).0))
    ]
    replay_loop_ends (suc fuel) index bytes r h = elim (Option-cases (read_record c key bytes)) [
      | inl stop ↦ ([], tt, replay_loop-none (suc fuel) index bytes r stop)
      | inr ((p, rest), e) ↦
          let (shorter, here) = read_record-eq-some c key bytes p rest e in
          let (ps, accepted, finish) =
            replay_loop_ends fuel (suc index) rest (on_payload json artifact_of (suc index) p r)
              (omega (arith, shorter)) in
          (p ∷ ps, (rest, here, accepted), replay_loop-some fuel index bytes p rest r e ∙ finish)
    ]

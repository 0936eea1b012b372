-- ===== src/Tiedb/Writer/ReadYourWrites.antt =====
-- A record that is queued is what a read of its slot returns.
use tie.Prelude.{
  ◌≡◌, ◌∷◌, ◌++◌, [], refl, false, some, none, Option, List, ap, ◌∙◌, arith, Bool-cases, inl, inr,
  Bool,
}
use tie.Prelude.GoMap
use tie.Prelude.Int.{ℤ, int_eq, int_beq, int_beq_iff}
use tie.Tiedb.Triples.{Triple, Bytes}
use tie.Tiedb.Records.{
  to_bytes, buf_to_association, delete_to_bytes, entry_to_bytes, hash_to_bytes, put_uint, uint,
  slice, datatype,
}
use tie.Tiedb.Records.RoundTrip.{IsStorable, buf_to_association-to_bytes}
use tie.Tiedb.Collection.{
  Collection, FileMod, RecordFile, Error, add_association, add_entry, add_hash, delete, barrier,
}
use tie.Tiedb.Writer.{
  write_at, free_if_written, apply_file_mod, drain, drain_write_queue, read_slot,
}

drain-append :
    (ic : Collection) (ms ns : List FileMod) → drain ic (ms ++ ns) ≡ drain (drain ic ms) ns
unfolding drain
drain-append ic [] ns = refl
drain-append ic (m ∷ ms) ns = drain-append (apply_file_mod ic m).0 ms ns

write_at-fails :
    (ic : Collection) (p : ℤ) (b : Bytes) → (write_at ic p b).0.file.fails ≡ ic.file.fails
unfolding write_at
write_at-fails ic p b = elim (Bool-cases (ic.file.fails p)) [
  | inl bad ↦ rw bad refl
  | inr good ↦ rw good refl
]

free_if_written-file :
    (r : Collection × Option Error) (p : ℤ) → (free_if_written r p).0.file ≡ r.0.file
unfolding free_if_written
free_if_written-file (ic, none) p = refl
free_if_written-file (ic, some e) p = refl

apply_file_mod-fails :
    (ic : Collection) (m : FileMod) → (apply_file_mod ic m).0.file.fails ≡ ic.file.fails
unfolding apply_file_mod
apply_file_mod-fails ic barrier = refl
apply_file_mod-fails ic (delete p) =
    ap (λ (f : RecordFile). f.fails) (free_if_written-file (write_at ic p delete_to_bytes) p)
    ∙ write_at-fails ic p delete_to_bytes
apply_file_mod-fails ic (add_association p a) = write_at-fails ic p (to_bytes a)
apply_file_mod-fails ic (add_entry p level id uv) = write_at-fails ic p (entry_to_bytes level id uv)
apply_file_mod-fails ic (add_hash p id raw) = write_at-fails ic p (hash_to_bytes id raw)

drain-fails : (ic : Collection) (ms : List FileMod) → (drain ic ms).file.fails ≡ ic.file.fails
unfolding drain
drain-fails ic [] = refl
drain-fails ic (m ∷ ms) = drain-fails (apply_file_mod ic m).0 ms ∙ apply_file_mod-fails ic m

write_at-other :
    (ic : Collection) (p : ℤ) (b : Bytes) (q : ℤ)
    → int_beq p q ≡ false
    → GoMap.get (write_at ic p b).0.file.frames q ≡ GoMap.get ic.file.frames q
unfolding write_at
write_at-other ic p b q h = elim (Bool-cases (ic.file.fails p)) [
  | inl bad ↦ rw bad refl
  | inr good ↦ rw good (ground (arith, GoMap.get-put ic.file.frames p b q))
]

write_at-same :
    (ic : Collection) (p : ℤ) (b : Bytes)
    → ic.file.fails p ≡ false
    → GoMap.get (write_at ic p b).0.file.frames p ≡ some b
unfolding write_at
write_at-same ic p b good =
    rw good (ground (arith, GoMap.get-put ic.file.frames p b p, int_beq_iff p p))

-- No modification of the queue writes at the position.
abbrev pub Spares : ℤ → FileMod → Type 0
Spares p (add_association q a) = int_beq q p ≡ false
Spares p (add_entry q level id uv) = int_beq q p ≡ false
Spares p (add_hash q id raw) = int_beq q p ≡ false
Spares p (delete q) = int_beq q p ≡ false
Spares p barrier = Unit

abbrev pub Untouched : ℤ → List FileMod → Type 0
Untouched p [] = Unit
Untouched p (m ∷ ms) = Spares p m × Untouched p ms

apply_file_mod-other :
    (ic : Collection) (m : FileMod) (p : ℤ)
    → Spares p m
    → GoMap.get (apply_file_mod ic m).0.file.frames p ≡ GoMap.get ic.file.frames p
unfolding apply_file_mod
apply_file_mod-other ic barrier p h = refl
apply_file_mod-other ic (delete q) p h =
    ap (λ (f : RecordFile). GoMap.get f.frames p)
      (free_if_written-file (write_at ic q delete_to_bytes) q)
    ∙ write_at-other ic q delete_to_bytes p h
apply_file_mod-other ic (add_association q a) p h = write_at-other ic q (to_bytes a) p h
apply_file_mod-other ic (add_entry q level id uv) p h =
    write_at-other ic q (entry_to_bytes level id uv) p h
apply_file_mod-other ic (add_hash q id raw) p h = write_at-other ic q (hash_to_bytes id raw) p h

drain-other :
    (ic : Collection) (ms : List FileMod) (p : ℤ)
    → Untouched p ms
    → GoMap.get (drain ic ms).file.frames p ≡ GoMap.get ic.file.frames p
unfolding drain
drain-other ic [] p h = refl
drain-other ic (m ∷ ms) p h =
    drain-other (apply_file_mod ic m).0 ms p h.1 ∙ apply_file_mod-other ic m p h.0

-- The frame at a position once the queue is drained up to a modification and past it.
drained_frame :
    (ic : Collection) (before : List FileMod) (m : FileMod) (after : List FileMod) (p : ℤ)
    → Untouched p after
    → GoMap.get (drain ic (before ++ m ∷ after)).file.frames p
      ≡ GoMap.get (apply_file_mod (drain ic before) m).0.file.frames p
drained_frame ic before m after p h =
    ap (λ (c : Collection). GoMap.get c.file.frames p) (drain-append ic before (m ∷ after))
    ∙ (unfold drain in drain-other (apply_file_mod (drain ic before) m).0 after p h)

decode : Option Bytes → Option Triple
decode none = none
decode (some b) = buf_to_association b

read_slot-frame :
    (ic : Collection) (p : ℤ) (frame : Option Bytes)
    → GoMap.get (drain (record ic { write_queue = [] }) ic.write_queue).file.frames p ≡ frame
    → (read_slot ic p).1 ≡ decode frame
unfolding read_slot drain_write_queue decode
read_slot-frame ic p none e = rw (e, read_slot, drain_write_queue) refl
read_slot-frame ic p (some b) e = rw (e, read_slot, drain_write_queue) refl

added_frame :
    (ic : Collection) (p : ℤ) (a : Triple)
    → ic.file.fails p ≡ false
    → GoMap.get (apply_file_mod ic (add_association p a)).0.file.frames p ≡ some (to_bytes a)
unfolding apply_file_mod
added_frame ic p a good = write_at-same ic p (to_bytes a) good

deleted_frame :
    (ic : Collection) (p : ℤ)
    → ic.file.fails p ≡ false
    → GoMap.get (apply_file_mod ic (delete p)).0.file.frames p ≡ some delete_to_bytes
unfolding apply_file_mod
deleted_frame ic p good =
    ap (λ (f : RecordFile). GoMap.get f.frames p)
      (free_if_written-file (write_at ic p delete_to_bytes) p)
    ∙ write_at-same ic p delete_to_bytes good

decode-added : (a : Triple) → IsStorable a → decode (some (to_bytes a)) ≡ some a
unfolding decode
decode-added a fits = (buf_to_association-to_bytes a fits).0

decode-deleted : decode (some delete_to_bytes) ≡ none
unfolding decode buf_to_association datatype delete_to_bytes put_uint uint slice
decode-deleted = refl

-- Where the last queued modification of a slot adds a triple whose fields fit the frame, and the
-- slot can be written, a read of the slot returns that triple, whatever is queued before it.
pub read_slot-added :
    (ic : Collection) (p : ℤ) (a : Triple) (before after : List FileMod)
    → ic.write_queue ≡ before ++ add_association p a ∷ after
    → Untouched p after
    → ic.file.fails p ≡ false
    → IsStorable a
    → (read_slot ic p).1 ≡ some a
read_slot-added ic p a before after queue h good fits =
    let cleared = record ic { write_queue = [] } in
    let writable = ap (λ (f : ℤ → Bool). f p) (drain-fails cleared before) ∙ good in
    let frame =
      ap (λ (ms : List FileMod). GoMap.get (drain cleared ms).file.frames p) queue
      ∙ drained_frame cleared before (add_association p a) after p h
      ∙ added_frame (drain cleared before) p a writable in
    read_slot-frame ic p (some (to_bytes a)) frame ∙ decode-added a fits

-- Where the last queued modification of a slot deletes it, and the slot can be written, a read of
-- the slot finds no triple, whatever is queued before it.
pub read_slot-deleted :
    (ic : Collection) (p : ℤ) (before after : List FileMod)
    → ic.write_queue ≡ before ++ delete p ∷ after
    → Untouched p after
    → ic.file.fails p ≡ false
    → (read_slot ic p).1 ≡ none
read_slot-deleted ic p before after queue h good =
    let cleared = record ic { write_queue = [] } in
    let writable = ap (λ (f : ℤ → Bool). f p) (drain-fails cleared before) ∙ good in
    let frame =
      ap (λ (ms : List FileMod). GoMap.get (drain cleared ms).file.frames p) queue
      ∙ drained_frame cleared before (delete p) after p h
      ∙ deleted_frame (drain cleared before) p writable in
    read_slot-frame ic p (some delete_to_bytes) frame ∙ decode-deleted

-- ===== src/Storage/Wal/Reopen.antt =====
-- `OpenWAL` of internal/storage/wal.go changes no file that is there, and a log that ended with a
-- whole record holds the same entries behind it.
use monsoon.Prelude.{
  ℕ, none, List, [], ◌∷◌, ◌++◌, ◌≡◌, refl, sym, ◌∙◌, ap, inl, inr, Bool-cases, arith, length,
  append-nil,
}
use monsoon.Bytes.{Bytes}
use monsoon.GoMap.{Map, lookup, insert, nat_eq}
use monsoon.Storage.Record.{Entry}
use monsoon.Storage.Wal.{Wal, Faults, open_file, content, last_id, open_wal, segment_paths}
use monsoon.Storage.Record.Replay.{encode_all}
use monsoon.Storage.Wal.Segments.{segment_paths-Chain, nil}
use monsoon.Storage.Wal.Stored.{Stored, Holds, Holds-Stored, content_last, insert_last, Chain-files}

last_id-append :
    (id : ℕ) (raw : Bytes) (older : Map ℕ Bytes) → last_id (older ++ (id, raw) ∷ []) ≡ id
last_id-append id raw [] = refl
last_id-append id raw (s ∷ []) = refl
last_id-append id raw (s ∷ t ∷ rest) = last_id-append id raw (t ∷ rest)

module _ (f : Faults) {dir : Map ℕ Bytes} {es : List Entry} (st : Stored dir es) where
  abbrev raw : Bytes
  raw = st.current ++ st.torn

  last_is : last_id (segment_paths dir) ≡ st.id
  last_is =
      rw (st.dir_is, segment_paths-Chain 0 _ (Chain-files st.id raw st.older st.chain st.above))
        (last_id-append st.id raw st.older)

  content_is : content st.id dir ≡ raw
  content_is = rw st.dir_is (content_last st.id raw st.older st.chain st.above)

  insert_is : insert st.id raw dir ≡ dir
  insert_is =
      ap (insert st.id raw) st.dir_is
      ∙ insert_last st.id raw st.older st.chain st.above raw
      ∙ sym st.dir_is

  pub open_wal-dir : (open_wal f dir).0.dir ≡ dir
  unfolding open_wal
  open_wal-dir = rw (last_is, content_is) (ground (arith, insert_is))

  opened-Holds :
      (w : Wal)
      → st.torn ≡ []
      → w.dir ≡ dir
      → w.segment_id ≡ st.id
      → w.file ≡ open_file w.segment_id
      → w.offset ≡ length raw
      → Holds w es
  opened-Holds w whole d i file o = record {
    older = st.older;
    current = st.current;
    older_entries = st.older_entries;
    last = st.last;
    dir_is =
        d
        ∙ st.dir_is
        ∙ ap (λ c. st.older ++ (st.id, st.current ++ c) ∷ []) whole
        ∙ rw (append-nil st.current, i);
    chain = st.chain;
    above = rw i st.above;
    held = st.held;
    encoded = st.encoded;
    entries_are = st.entries_are;
    file_is = file;
    offset_is = o ∙ ap (λ c. length (st.current ++ c)) whole ∙ rw append-nil;
  }

  open_fields :
      (open_wal f dir).1 ≡ none
      → ((open_wal f dir).0.segment_id ≡ st.id)
        × ((open_wal f dir).0.file ≡ open_file (open_wal f dir).0.segment_id)
        × ((open_wal f dir).0.offset ≡ length raw)
  unfolding open_wal
  open_fields = rw (last_is, content_is) (λ h. (ground arith, ground arith, ground arith))

  open_wal-Holds : st.torn ≡ [] → (open_wal f dir).1 ≡ none → Holds (open_wal f dir).0 es
  open_wal-Holds whole h =
      let (i, file, o) = open_fields h in
      opened-Holds (open_wal f dir).0 whole open_wal-dir i file o

-- A log in an empty directory holds no entries.
pub open_wal-fresh : (f : Faults) → (open_wal f []).1 ≡ none → Holds (open_wal f []).0 []
unfolding open_wal lookup insert encode_all
open_wal-fresh f = elim (Bool-cases f.open_fails) [
  | inl bad ↦ rw bad (λ h. cc h)
  | inr good ↦ rw good (λ h. record {
    older = [];
    current = [];
    older_entries = [];
    last = [];
    dir_is = refl;
    chain = tt;
    above = omega arith;
    held = nil;
    encoded = refl;
    entries_are = refl;
    file_is = refl;
    offset_is = refl;
  })
]

-- Opening the files of a log again gives a log that holds the same entries.
pub reopen-Holds :
    (f : Faults) (w : Wal) {es : List Entry}
    → Holds w es
    → (open_wal f w.dir).1 ≡ none
    → Holds (open_wal f w.dir).0 es
unfolding Holds-Stored
reopen-Holds f w h opened = open_wal-Holds f (Holds-Stored h) refl opened

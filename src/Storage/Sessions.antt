-- ===== src/Storage/Sessions.antt =====
-- The session history of ferrisync-core/src/storage/mod.rs.
use ferri_sync.Prelude.{
  ℕ, ◌+◌, ◌^◌, ◌≤◌, ◌<◌, ◌≡◌, refl, sym, ap, ◌∙◌, subst, Bool, true, List, [], ◌∷◌, ◌++◌, map, none,
  some, string_eq, nat_eq, ◌==◌, eq_iff, eq_refl, contains, keep, length, take, reverse_onto,
  length-take, length-map, arith, inl, inr, Bool-cases,
}
use ferri_sync.Prelude.Int.{of_word, as_u64}
use ferri_sync.Prelude.Options.{option_bind}
use ferri_sync.Prelude.Maps.{HashMap, lookup, IsMap, insert-IsMap}
use ferri_sync.Prelude.Predicates.{All}
use ferri_sync.Prelude.Entries.{keep-All, keep-IsMap, insert-All}
use ferri_sync.Storage.Registration.{insert-fresh}
use ferri_sync.Storage.Invariant.{All-imp, unnumbered}
use ferri_sync.Domain.{SessionRecord}
use ferri_sync.Storage.{Database, SessionRow}
use ferri_sync.Storage.Tables.{newest}
use ferri_sync.Storage.Records.{
  max_session_history, session_row, keep_newest, record_session, read_usize, read_session,
  collect_sessions, list_recent_sessions,
}

module _ {V : Type 0} where
  keep_split :
      (i : ℕ) (ids : List ℕ) (m : HashMap ℕ V)
      → length (keep (λ kv. contains kv.0 (i ∷ ids)) m)
        ≤ length (keep (λ kv. i == kv.0) m) + length (keep (λ kv. contains kv.0 ids) m)
  keep_split i ids [] = omega arith
  keep_split i ids ((j, v) ∷ m) = ground (arith, keep_split i ids m)

  keep_absent : (i : ℕ) (m : HashMap ℕ V) → lookup i m ≡ none → keep (λ kv. i == kv.0) m ≡ []
  unfolding lookup
  keep_absent i [] h = refl
  keep_absent i ((j, v) ∷ m) h = ground (arith, h, eq_iff i j, eq_iff j i, keep_absent i m)

  keep_once : (i : ℕ) (m : HashMap ℕ V) → IsMap m → length (keep (λ kv. i == kv.0) m) ≤ 1
  keep_once i [] h = omega arith
  keep_once i ((j, v) ∷ m) (fresh, h) = elim (Bool-cases (i == j)) [
    | inl hit ↦ rw hit (
        let none_left : keep (λ kv. i == kv.0) m ≡ [] =
          keep_absent i m (subst (λ k. lookup k m ≡ none) (sym ((eq_iff i j).0 hit)) fresh) in
        rw none_left (omega arith))
    | inr miss ↦ rw miss (keep_once i m h)
  ]

  -- As many rows stay as there are ids, at most.
  keep_ids :
      (ids : List ℕ) (m : HashMap ℕ V)
      → IsMap m
      → length (keep (λ kv. contains kv.0 ids) m) ≤ length ids
  keep_ids [] m h = none_kept m
    where
      none_kept : (l : HashMap ℕ V) → length (keep (λ kv. contains {A = ℕ} kv.0 []) l) ≤ 0
      none_kept [] = omega arith
      none_kept (x ∷ l) = none_kept l
  keep_ids (i ∷ ids) m h = omega (arith, keep_split i ids m, keep_once i m h, keep_ids ids m h)

  keep-last :
      (p : ℕ × V → Bool) (m : HashMap ℕ V) (kv : ℕ × V)
      → p kv ≡ true
      → keep p (m ++ kv ∷ []) ≡ keep p m ++ kv ∷ []
  keep-last p [] kv h = rw h refl
  keep-last p (x ∷ m) kv h = ground (arith, keep-last p m kv h)

  reverse_onto-last :
      (m ys : HashMap ℕ V) (kv : ℕ × V) → reverse_onto (m ++ kv ∷ []) ys ≡ kv ∷ reverse_onto m ys
  reverse_onto-last [] ys kv = refl
  reverse_onto-last (x ∷ m) ys kv = reverse_onto-last m (x ∷ ys) kv

-- The ids of the sessions are unique, and each was given out.
abbrev pub IsHistory : Database → Type 0
IsHistory db = IsMap db.sync_sessions × All (λ kv. kv.0 ≤ db.last_session) db.sync_sessions

with_session :
    (r : SessionRecord) (db : Database)
    → IsHistory db
    → let rows = db.sync_sessions ++ (db.last_session + 1, session_row r) ∷ [] in
      IsMap rows × All {A = ℕ × SessionRow} (λ kv. kv.0 ≤ db.last_session + 1) rows
with_session r db (unique, ids) =
    let n = db.last_session in
    subst (λ rows. IsMap rows × All {A = ℕ × SessionRow} (λ kv. kv.0 ≤ n + 1) rows)
      (insert-fresh (n + 1) (session_row r) db.sync_sessions (unnumbered n db.sync_sessions ids))
      (
        insert-IsMap (n + 1) (session_row r) db.sync_sessions unique,
        insert-All (λ kv. kv.0 ≤ n + 1) (n + 1) (session_row r) db.sync_sessions (omega arith)
            (All-imp (λ kv. kv.0 ≤ n) (λ kv. kv.0 ≤ n + 1) (λ kv le. omega arith) db.sync_sessions
              ids),
      )

newest_ids :
    (rows : HashMap ℕ SessionRow)
    → length (map (λ kv. kv.0) (newest max_session_history rows)) ≤ max_session_history
newest_ids rows = omega (
  arith,
  length-map (newest max_session_history rows) (λ kv. kv.0),
  length-take max_session_history (reverse_onto rows []),
)

-- After a session is recorded there are at most 100 of them; the ids stay unique and given out.
pub record_session-IsHistory :
    (r : SessionRecord) (db : Database)
    → IsHistory db
    → IsHistory (record_session r db)
      × (length (record_session r db).sync_sessions ≤ max_session_history)
unfolding record_session
record_session-IsHistory r db h =
    let rows = db.sync_sessions ++ (db.last_session + 1, session_row r) ∷ [] in
    let ids = map (λ kv. kv.0) (newest max_session_history rows) in
    let (unique, given) = with_session r db h in
    (
      (
        keep-IsMap (λ kv. contains kv.0 ids) rows unique,
        keep-All (λ kv. kv.0 ≤ db.last_session + 1) (λ kv. contains kv.0 ids) rows given,
      ),
      omega (arith, keep_ids ids rows unique, newest_ids rows),
    )

-- What a row can hold of a session: counts below 2^63 and bytes below 2^64.
abbrev pub IsStorable : SessionRecord → Type 0
IsStorable r =
    (r.pushed_count < 2 ^ 63)
    × (r.pulled_count < 2 ^ 63)
    × (r.conflicts_count < 2 ^ 63)
    × (r.pushed_bytes < 2 ^ 64)
    × (r.pulled_bytes < 2 ^ 64)

word_usize : (n : ℕ) → n < 2 ^ 63 → read_usize (of_word n) ≡ some n
word_usize n h = ground (arith, h)

pub word_u64 : (n : ℕ) → n < 2 ^ 64 → as_u64 (of_word n) ≡ n
word_u64 n h = ground (arith, h)

pub read-session_row : (r : SessionRecord) → IsStorable r → read_session (session_row r) ≡ some r
unfolding read_session
read-session_row r (a, b, c, d, e) =
    rw
      (
        word_usize r.pushed_count a,
        word_usize r.pulled_count b,
        word_usize r.conflicts_count c,
        word_u64 r.pushed_bytes d,
        word_u64 r.pulled_bytes e,
      )
      refl

newest_kept :
    (n : ℕ) (row : SessionRow) (m : HashMap ℕ SessionRow)
    → keep_newest (m ++ (n, row) ∷ [])
      ≡ keep
          (λ kv. contains kv.0 (map (λ kv. kv.0) (newest max_session_history (m ++ (n, row) ∷ []))))
          m
        ++ (n, row) ∷ []
newest_kept n row m =
    keep-last
      (λ kv. contains kv.0 (map (λ kv. kv.0) (newest max_session_history (m ++ (n, row) ∷ [])))) m
      (n, row)
      (ap (λ l. contains n (map {A = ℕ × SessionRow} (λ kv. kv.0) (take max_session_history l)))
          (reverse_onto-last m [] (n, row))
        ∙ ground (arith, eq_refl n))

-- The newest session that is listed after a session is recorded is that session, with its counts and
-- bytes, where these fit their types.
pub list_recent_sessions-record_session :
    (r : SessionRecord) (db : Database)
    → IsStorable r
    → list_recent_sessions 1 (record_session r db) ≡ some (r ∷ [])
unfolding list_recent_sessions record_session
list_recent_sessions-record_session r db h =
    let n = db.last_session + 1 in
    let row = session_row r in
    let m = db.sync_sessions in
    let kept =
      keep
        (λ kv. contains kv.0 (map (λ kv. kv.0) (newest max_session_history (m ++ (n, row) ∷ []))))
        m in
    ap (λ l. collect_sessions (newest 1 l)) (newest_kept n row m)
    ∙ ap (λ l. collect_sessions (take 1 l)) (reverse_onto-last kept [] (n, row))
    ∙ ap (λ o. option_bind o (λ x. some (x ∷ []))) (read-session_row r h)

-- ===== src/Wal/Cutoff.antt =====
-- What the cutoff of the settlement daemon leaves in the tally database.
use iso8583paymentsengine.Base.{
  ℕ, ◌+◌, ◌≡◌, ◌≢◌, refl, sym, ap, ◌∙◌, true, List, [], ◌∷◌, ◌++◌, if_cases, length, drop, get_or,
  length-append, drop-append, All, arith,
}
use iso8583paymentsengine.Base.Text.{Bytes, codes, bytes_eq, bytes_eq_self}
use iso8583paymentsengine.Base.Utf8.{from_utf8_lossy}
use iso8583paymentsengine.Base.Dict.{Dict, lookup, remove, lookup-remove_ne}
use iso8583paymentsengine.Wal.Settle.{
  Db, cursor_key, count_key, is_system_key, cutoff_rows, remove_all, execute_cutoff,
}

count_key-apart : (k : Bytes) → cursor_key ≢ count_key k
count_key-apart k e =
    let size : length (codes "cursor_offset") ≡ length k + 6 =
      ap length e ∙ length-append k (codes "_count") in
    let seven : length k ≡ 7 = omega (arith, size) in
    let tail : drop 7 (codes "cursor_offset") ≡ codes "_count" =
      ap (drop 7) e
      ∙ (ap (λ n. drop n (k ++ codes "_count")) (sym seven) ∙ drop-append k (codes "_count")) in
    let head : ◌≡◌ {A = ℕ} 111 95 = ap (λ (l : Bytes). get_or l 0 0) tail in
    absurd (omega (arith, head))

remove_all-other :
    (ks : List Bytes) (db : Db)
    → All (λ k. cursor_key ≢ k) ks
    → lookup cursor_key (remove_all ks db) ≡ lookup cursor_key db
unfolding remove_all
remove_all-other [] db h = refl
remove_all-other (k ∷ ks) db h =
    remove_all-other ks (remove k db) h.1 ∙ lookup-remove_ne cursor_key k db h.0

cutoff_rows-apart :
    (entries : Dict ℕ) (db : Db) → All (λ k. cursor_key ≢ k) (cutoff_rows entries db).1
unfolding cutoff_rows
cutoff_rows-apart [] db = tt
cutoff_rows-apart ((key, total) ∷ entries) db =
    let k = from_utf8_lossy key in
    let later = cutoff_rows-apart entries db in
    if_cases (λ (r : List (List Bytes) × List Bytes). All (λ j. cursor_key ≢ j) (r.1))
      (is_system_key k) (λ _. later)
      (λ own. (
        λ e.
            let same : bytes_eq k cursor_key ≡ true =
              ap (λ j. bytes_eq j cursor_key) (sym e) ∙ bytes_eq_self cursor_key in
            ground arith,
        (count_key-apart k, later),
      ))

-- The cutoff keeps the value under the cursor's key.
pub execute_cutoff-cursor :
    (db : Db) → lookup cursor_key (execute_cutoff db).1 ≡ lookup cursor_key db
unfolding execute_cutoff
execute_cutoff-cursor db = remove_all-other (cutoff_rows db db).1 db (cutoff_rows-apart db db)

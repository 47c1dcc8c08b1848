-- ===== src/Ops/Table.antt =====
-- The three tables of ops-control-plane/src/main.rs whose rows are never overwritten: an update retires
-- the live row and inserts its next version. `Key` is what the versions of a row share, `Terms` is what
-- an update sets.
use iso8583paymentsengine.Base.{
  ℕ, zero, suc, ◌+◌, ◌-◌, ◌^◌, Bool, true, false, ◌&&◌, Option, none, some, List, [], ◌∷◌, ◌++◌,
  ltb, ◌==◌, if◌then◌else◌,
}
use iso8583paymentsengine.Base.Int.{ℤ, pos, negsuc}

pub record Row (Key Terms : Type 0) : Type 0 where
  pub id : Option ℕ
  pub key : Key
  pub terms : Terms
  pub version : ℤ
  pub valid_from : ℕ
  pub valid_to : Option ℕ
  pub is_live : Bool

-- The rows in the order of their insertion, and the next number of an AUTOINCREMENT column. A column
-- `id SERIAL PRIMARY KEY` has none: SQLite leaves NULL in it.
pub record Table (Key Terms : Type 0) : Type 0 where
  pub rows : List (Row Key Terms)
  pub sequence : Option ℕ

pub data StatusCode : Type 0 where
  ok created not_found internal_server_error bad_gateway : StatusCode

-- `version + 1` on an `i32`.
unfoldable pub next_version : ℤ → ℤ
next_version (pos n) = if ltb (n + 1) (2 ^ 31) then pos (n + 1) else negsuc (2 ^ 31 - 1)
next_version (negsuc zero) = pos 0
next_version (negsuc (suc n)) = negsuc n

-- What an operator asks for.
pub data Request (Key Terms : Type 0) : Type 0 where
  create_row : Key → Terms → Request Key Terms
  update_row : ℕ → Terms → Request Key Terms

module _ {Key Terms : Type 0} where
  -- `WHERE id = ?`, which no NULL satisfies.
  abbrev pub has_id : ℕ → Row Key Terms → Bool
  has_id id r = elim r.id [ none ↦ false | some i ↦ i == id ]

  -- `SELECT * … WHERE id = ? AND is_live = 1`, its first row.
  unfoldable pub find_live : ℕ → List (Row Key Terms) → Option (Row Key Terms)
  find_live id [] = none
  find_live id (r ∷ rows) = if has_id id r && r.is_live then some r else find_live id rows

  -- `UPDATE … SET is_live = 0, valid_to = CURRENT_TIMESTAMP WHERE id = ?`
  unfoldable pub retire : ℕ → ℕ → List (Row Key Terms) → List (Row Key Terms)
  retire now id [] = []
  retire now id (r ∷ rows) =
      (if has_id id r then record r { is_live = false; valid_to = some now } else r)
      ∷ retire now id rows

  -- `INSERT INTO … (…, version, is_live) VALUES (…, ?, 1)`
  unfoldable pub insert_row : ℕ → Key → Terms → ℤ → Table Key Terms → Table Key Terms
  insert_row now key terms version t = record {
    rows =
        t.rows
        ++ (record {
          id = t.sequence;
          key = key;
          terms = terms;
          version = version;
          valid_from = now;
          valid_to = none;
          is_live = true;
        }
            ∷ []);
    sequence = elim t.sequence [ none ↦ none | some n ↦ some (n + 1) ];
  }

  -- `create_…`, with the answer of the database to its one statement.
  unfoldable pub create : Bool → ℕ → Key → Terms → Table Key Terms → Table Key Terms × StatusCode
  unfolding insert_row
  create db_ok now key terms t =
      if db_ok then (insert_row now key terms (pos 1) t, created) else (t, internal_server_error)

  -- `update_…`. A statement that fails is a panic, `none`, and the transaction is rolled back.
  unfoldable pub update :
      Bool → ℕ → ℕ → Terms → Table Key Terms → Table Key Terms × Option StatusCode
  unfolding find_live retire insert_row
  update db_ok now id terms t =
      if db_ok
      then (elim (find_live id t.rows) [
        | none ↦ (t, some not_found)
        | some r ↦
            let retired = record t { rows = retire now id t.rows } in
            (insert_row now r.key terms (next_version r.version) retired, some ok)
      ])
      else (t, none)

  -- `SELECT * … WHERE is_live = 1`
  unfoldable pub live : List (Row Key Terms) → List (Row Key Terms)
  live [] = []
  live (r ∷ rows) = if r.is_live then r ∷ live rows else live rows

  -- One request: whether the database answers, when it comes, and what it is.
  unfoldable pub handle : Bool × ℕ × Request Key Terms → Table Key Terms → Table Key Terms
  unfolding create update
  handle (db_ok, now, create_row key terms) t = (create db_ok now key terms t).0
  handle (db_ok, now, update_row id terms) t = (update db_ok now id terms t).0

  unfoldable pub handle_all :
      List (Bool × ℕ × Request Key Terms) → Table Key Terms → Table Key Terms
  unfolding handle
  handle_all [] t = t
  handle_all (q ∷ qs) t = handle_all qs (handle q t)

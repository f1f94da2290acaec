-- ===== src/Store/Sql/History.antt =====
-- internal/store/sql.go: the query history, its filter and its pages.
pub mod Pages
use databricks_emulator.Base.{
  ℕ, zero, suc, ◌+◌, ◌-◌, ◌^◌, Bool, true, false, ◌&&◌, ◌||◌, not, Option, none, some, List, [],
  ◌∷◌, String, if◌then◌else◌, ltb, leb, length, take, drop, keep, any,
}
use databricks_emulator.Base.Eq.{◌==◌, nat_comparable}
use databricks_emulator.Base.Int64.{ℤ, pos, negsuc}

pub record QueryHistory : Type 0 where
  pub query_id : String
  pub warehouse_id : String
  pub query_text : String
  pub status : String
  pub error_message : String
  pub query_start_time_ms : ℤ
  pub query_end_time_ms : ℤ
  pub execution_end_time_ms : ℤ
  pub duration : ℤ
  pub is_final : Bool
  pub user_name : String
  pub statement_type : String

pub record HistoryFilter : Type 0 where
  pub warehouse_ids : List String
  pub statuses : List String
  pub statement_ids : List String
  pub start_time_ms : ℤ
  pub end_time_ms : ℤ

-- `<` on integers.
abbrev pub ltz : ℤ → ℤ → Bool
ltz (pos m) (pos n) = ltb m n
ltz (pos m) (negsuc n) = false
ltz (negsuc m) (pos n) = true
ltz (negsuc m) (negsuc n) = ltb n m

-- What a slice of the matching entries gives, and where the next page begins.
pub record Page : Type 0 where
  pub items : List QueryHistory
  pub next_offset : ℕ
  pub has_next : Bool

-- An offset below 0 is 0, and one beyond the end is the end.
unfoldable pub clamp_offset : ℤ → ℕ → ℕ
clamp_offset (negsuc n) total = 0
clamp_offset (pos n) total = if ltb total n then total else n

-- A limit that is not positive is 100.
unfoldable pub clamp_limit : ℤ → ℕ
clamp_limit (negsuc n) = 100
clamp_limit (pos n) = if n == 0 then 100 else n

-- matched[offset:end], from an offset inside the list. `none` is the panic of a slice whose end is
-- negative: offset + limit wraps around in an int.
unfoldable pub page_at : List QueryHistory → ℕ → ℕ → Option Page
page_at matched offset limit =
    if ltb (offset + limit) (2 ^ 63)
    then (if ltb (offset + limit) (length matched)
        then some (record {
          items = take limit (drop offset matched);
          next_offset = offset + limit;
          has_next = true;
        })
        else some (record { items = drop offset matched; next_offset = 0; has_next = false }))
    else none

-- strings.EqualFold is a parameter.
module _ (equal_fold : String → String → Bool) where
  unfoldable pub contains_fold : List String → String → Bool
  contains_fold have want = any (λ v. equal_fold v want) have

  -- An empty list of the filter admits everything.
  abbrev pub admits : List String → String → Bool
  admits have want = leb (length have) 0 || contains_fold have want

  unfoldable pub history_matches : QueryHistory → HistoryFilter → Bool
  history_matches h f =
      admits f.warehouse_ids h.warehouse_id
      && (admits f.statuses h.status
          && (admits f.statement_ids h.query_id
              && (not (ltz (pos 0) f.start_time_ms && ltz h.query_start_time_ms f.start_time_ms)
                  && not (ltz (pos 0) f.end_time_ms && ltz f.end_time_ms h.query_start_time_ms))))

  unfoldable pub matching : List QueryHistory → HistoryFilter → List QueryHistory
  matching history f = keep (λ h. history_matches h f) history

  unfoldable pub list_history : List QueryHistory → HistoryFilter → ℤ → ℤ → Option Page
  list_history history f offset limit =
      page_at (matching history f) (clamp_offset offset (length (matching history f)))
        (clamp_limit limit)

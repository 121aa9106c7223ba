-- ===== src/Handoff/Rows.antt =====
-- How the statements on `agent_handoffs` change what a SELECT by checkpoint_ref finds.
use graph_skill_runtime.Common.{String, none, some, [], ◌∷◌, ◌++◌, ◌≡◌, ◌≢◌, refl, arith, eq_iff}
use graph_skill_runtime.Handoff.{
  AgentHandoffRecord, Row, Table, Pydantic, ok, select, select_claim, update, required_row,
  insert_required,
}

-- A row that a SELECT found is found again after rows were added at the end.
pub select-append :
    {J : Type 0} (ref : String) (table more : Table J) (row : Row J)
    → select ref table ≡ some row
    → select ref (table ++ more) ≡ some row
unfolding select
select-append ref [] more row h = ground arith
select-append ref (x ∷ xs) more row h = ground (arith, select-append ref xs more row)

-- An UPDATE that keeps the key changes its own row and no other.
module _ {J : Type 0} (change : Row J → Row J)
    (keeps : (row : Row J) → (change row).checkpoint_ref ≡ row.checkpoint_ref) where
  pub select-update_self :
      (ref : String) (table : Table J) (row : Row J)
      → select ref table ≡ some row
      → select ref (update ref change table) ≡ some (change row)
  unfolding select update
  select-update_self ref [] row h = ground arith
  select-update_self ref (x ∷ xs) row h = ground (arith, keeps x, select-update_self ref xs row)

  pub select-update_ne :
      (ref other : String) (table : Table J)
      → ref ≢ other
      → select other (update ref change table) ≡ select other table
  unfolding select update
  select-update_ne ref other [] h = refl
  select-update_ne ref other (x ∷ xs) h = ground (
    arith,
    keeps x,
    select-update_ne ref other xs h,
    eq_iff x.checkpoint_ref ref,
    eq_iff x.checkpoint_ref other,
  )

-- Where no row claims either key, no row has the checkpoint_ref.
pub select-none_of_claim :
    {J : Type 0} (ref task_id : String) (table : Table J)
    → select_claim ref task_id table ≡ none
    → select ref table ≡ none
unfolding select select_claim
select-none_of_claim ref task_id [] h = refl
select-none_of_claim ref task_id (x ∷ xs) h = ground (arith, select-none_of_claim ref task_id xs)

pub select-append_none :
    {J : Type 0} (ref : String) (table : Table J) (row : Row J)
    → select ref table ≡ none
    → row.checkpoint_ref ≡ ref
    → select ref (table ++ row ∷ []) ≡ some row
unfolding select
select-append_none ref [] row h e = ground (arith, eq_iff row.checkpoint_ref ref)
select-append_none ref (x ∷ xs) row h e = ground (arith, select-append_none ref xs row)

-- An accepted INSERT, whether it added a row or met its own, keeps every row that was there.
pub select-insert_required :
    (p : Pydantic) (now ref : String) (r : AgentHandoffRecord) (table table' : Table p.Json)
    (row : Row p.Json)
    → insert_required p now r table ≡ ok table'
    → select ref table ≡ some row
    → select ref table' ≡ some row
unfolding insert_required
select-insert_required p now ref r table table' row h found =
    ground (arith, select-append ref table (required_row p now r ∷ []) row found)

-- ===== src/Budget/Pages.antt =====
-- `paginate_items` of performance_budgets.py, and the walk of a client that follows `next_offset`.
use workspace_governance_con.Prelude.{
  ℕ, zero, suc, ◌+◌, min, Bool, Option, none, some, List, [], ◌++◌, String, ltb, length, take, drop,
  if◌then◌else◌,
}
use workspace_governance_con.Prelude.Int.{pos}
use workspace_governance_con.Value.{Value, int}
use workspace_governance_con.Budget.Resolve.{resolve_performance_budget}
use workspace_governance_con.Budget.Limits.{int_or_default}

pub record PaginationResult : Type 0 where
  pub effective_limit : ℕ
  pub has_next_page : Bool
  pub next_offset : Option ℕ
  pub offset : ℕ
  pub returned_count : ℕ
  pub total_count : ℕ

abbrev or_one : ℕ → ℕ
or_one zero = 1
or_one (suc n) = suc n

-- `budget.max_page_size or len(items) or 1`
unfoldable pub page_cap : Option ℕ → ℕ → ℕ
page_cap none total = or_one total
page_cap (some zero) total = or_one total
page_cap (some (suc n)) total = suc n

module _ {ℓ} {A : Type ℓ} where
  -- The body after the limits are read.
  unfoldable pub page_at : List A → ℕ → ℕ → List A × PaginationResult
  page_at items limit offset =
      let page = take limit (drop offset items) in
      let more = ltb (offset + limit) (length items) in
      (
        page,
        record {
          effective_limit = limit;
          has_next_page = more;
          next_offset = if more then some (offset + limit) else none;
          offset = offset;
          returned_count = length page;
          total_count = length items;
        },
      )

  -- `effective_limit` of a call.
  unfoldable pub effective_limit_of : List A → Value → String → String → ℕ
  unfolding page_cap int_or_default
  effective_limit_of items limit operation profile =
      let cap =
        page_cap (resolve_performance_budget operation profile).max_page_size (length items) in
      min (int_or_default limit cap 1) cap

  unfoldable pub paginate_items :
      List A → Value → Value → String → String → List A × PaginationResult
  unfolding effective_limit_of page_at
  paginate_items items limit offset operation profile =
      page_at items (effective_limit_of items limit operation profile) (int_or_default offset 0 0)

  abbrev pub with_page : List A → Option (List A) → Option (List A)
  with_page page none = none
  with_page page (some rest) = some (page ++ rest)

  abbrev pub follow : Option ℕ → (ℕ → Option (List A)) → Option (List A)
  follow none next = some []
  follow (some o) next = next o

  -- A client that asks for page after page until `next_offset` is `None`, and keeps what it is given;
  -- `none` where that takes more than `fuel` pages.
  unfoldable pub walk : ℕ → List A → Value → ℕ → String → String → Option (List A)
  walk zero items limit offset operation profile = none
  walk (suc fuel) items limit offset operation profile =
      let (page, info) = paginate_items items limit (int (pos offset)) operation profile in
      with_page page (follow info.next_offset (λ o. walk fuel items limit o operation profile))

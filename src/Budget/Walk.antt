-- ===== src/Budget/Walk.antt =====
-- The pages that following `next_offset` of performance_budgets.py's `paginate_items` gives.
use workspace_governance_con.Prelude.{
  ℕ, zero, suc, ◌+◌, ◌≤◌, ◌<◌, ◌≡◌, ap, true, false, Option, none, some, List, ◌++◌, String, ltb,
  arith, length, take, drop, length-take, length-drop, take-append-drop, take_all, drop-drop,
  Bool-cases, inl, inr, ltb→lt,
}
use mathlib.Core.List.{append-nil}
use workspace_governance_con.Prelude.Int.{ℤ, pos}
use workspace_governance_con.Value.{Value, int, to_int}
use workspace_governance_con.Budget.Resolve.{resolve_performance_budget}
use workspace_governance_con.Budget.Limits.{int_or_default, optional_int, at_least, default_to}
use workspace_governance_con.Budget.Pages.{
  page_cap, page_at, effective_limit_of, paginate_items, walk,
}

page_cap-pos : (o : Option ℕ) (n : ℕ) → 0 < page_cap o n
unfolding page_cap
page_cap-pos none zero = omega arith
page_cap-pos none (suc n) = omega arith
page_cap-pos (some zero) zero = omega arith
page_cap-pos (some zero) (suc n) = omega arith
page_cap-pos (some (suc m)) n = omega arith

page_cap_set : (o : Option ℕ) (total n : ℕ) → o ≡ some n → 0 < n → page_cap o total ≡ n
unfolding page_cap
page_cap_set none total n e h = cc
page_cap_set (some zero) total n e h = ground arith
page_cap_set (some (suc m)) total n e h = ground arith

at_least-ge : (m : ℕ) (o : Option ℤ) (d : ℕ) → m ≤ d → m ≤ default_to d (at_least m o)
unfolding at_least
at_least-ge m none d h = h
at_least-ge m (some (ℤ.pos n)) d h = ground arith
at_least-ge m (some (ℤ.negsuc n)) d h = h

offset_of_pos : (o : ℕ) → int_or_default (int (pos o)) 0 0 ≡ o
unfolding int_or_default optional_int at_least
offset_of_pos o = ground arith

module _ {ℓ} {A : Type ℓ} where
  pub effective_limit_of-pos :
      (items : List A) (limit : Value) (operation profile : String)
      → 0 < effective_limit_of items limit operation profile
  unfolding effective_limit_of int_or_default optional_int
  effective_limit_of-pos items limit operation profile =
      let cap =
        page_cap (resolve_performance_budget operation profile).max_page_size (length items) in
      let pos_cap =
        page_cap-pos (resolve_performance_budget operation profile).max_page_size (length items) in
      omega (arith, at_least-ge 1 (to_int limit) cap pos_cap)

module _ {ℓ} {A : Type ℓ} where
  paginate_items-page_at :
      (items : List A) (limit : Value) (offset : ℕ) (operation profile : String)
      → paginate_items items limit (int (pos offset)) operation profile
        ≡ page_at items (effective_limit_of items limit operation profile) offset
  unfolding paginate_items
  paginate_items-page_at items limit offset operation profile = rw (offset_of_pos offset)

  last_page :
      (items : List A) (limit offset : ℕ)
      → ltb (offset + limit) (length items) ≡ false
      → take limit (drop offset items) ≡ drop offset items
  last_page items limit offset h =
      take_all limit (drop offset items) (ground (arith, length-drop offset items))

  next_page :
      (items : List A) (size offset : ℕ)
      → take size (drop offset items) ++ drop (offset + size) items ≡ drop offset items
  next_page items size offset =
      rw (← drop-drop size offset items) (take-append-drop size (drop offset items))

  walk_step :
      (fuel : ℕ) (items : List A) (limit : Value) (offset : ℕ) (operation profile : String)
      → let next = offset + effective_limit_of items limit operation profile in
        (ltb next (length items) ≡ true
          → walk fuel items limit next operation profile ≡ some (drop next items))
        → walk (suc fuel) items limit offset operation profile ≡ some (drop offset items)
  unfolding walk page_at
  walk_step fuel items limit offset operation profile rest =
      let size = effective_limit_of items limit operation profile in
      rw (paginate_items-page_at items limit offset operation profile)
        (elim (Bool-cases (ltb (offset + size) (length items))) [
          | inl more ↦ rw (more, rest more) (ap some (next_page items size offset))
          | inr last ↦ rw (last, append-nil) (ap some (last_page items size offset last))
        ])

  walk_from :
      (fuel : ℕ) (items : List A) (limit : Value) (offset : ℕ) (operation profile : String)
      → length items ≤ fuel + offset
      → walk (suc fuel) items limit offset operation profile ≡ some (drop offset items)
  walk_from zero items limit offset operation profile h =
      walk_step 0 items limit offset operation profile
        λ more. absurd (omega (arith, ltb→lt _ _ more))
  walk_from (suc fuel) items limit offset operation profile h =
      let positive = effective_limit_of-pos items limit operation profile in
      walk_step (suc fuel) items limit offset operation profile λ more.
        walk_from fuel items limit (offset + effective_limit_of items limit operation profile)
          operation profile (omega arith)

  -- A client that starts at offset 0 and follows `next_offset` reaches a page whose `next_offset` is
  -- `None` within one request more than there are items, and is then given every item exactly once and
  -- in order, whatever limit it asks for, for every operation and profile.
  pub walk_complete :
      (items : List A) (limit : Value) (operation profile : String)
      → walk (suc (length items)) items limit 0 operation profile ≡ some items
  walk_complete items limit operation profile =
      walk_from (length items) items limit 0 operation profile (omega arith)

  effective_limit_of-le :
      (items : List A) (limit : Value) (operation profile : String) (size : ℕ)
      → (resolve_performance_budget operation profile).max_page_size ≡ some size
      → 0 < size
      → effective_limit_of items limit operation profile ≤ size
  unfolding effective_limit_of
  effective_limit_of-le items limit operation profile size e positive = omega (
    arith,
    page_cap_set (resolve_performance_budget operation profile).max_page_size (length items) size e
        positive,
  )

  -- A page holds at most as many items as the effective limit says, which is at least one and never
  -- above the page size of the resolved contract, where that is set.
  pub paginate_items_bounds :
      (items : List A) (limit offset : Value) (operation profile : String) (size : ℕ)
      → (resolve_performance_budget operation profile).max_page_size ≡ some size
      → 0 < size
      → let (page, info) = paginate_items items limit offset operation profile in
        (length page ≤ info.effective_limit)
        × (info.effective_limit ≤ size)
        × (0 < info.effective_limit)
  unfolding paginate_items page_at
  paginate_items_bounds items limit offset operation profile size e positive =
      let eff = effective_limit_of items limit operation profile in
      (
        omega (arith, length-take eff (drop (int_or_default offset 0 0) items)),
        effective_limit_of-le items limit operation profile size e positive,
        effective_limit_of-pos items limit operation profile,
      )

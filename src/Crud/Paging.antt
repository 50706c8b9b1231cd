-- ===== src/Crud/Paging.antt =====
-- Reading a table page by page (`get_all` of app/shared/base_domain, app/shared/pagination.py). The query
-- has no ORDER BY: the database is taken to list the rows of an unchanged table in one order.
use iot_server.Prelude.{
  ℕ, zero, suc, ◌+◌, ◌*◌, ◌≤◌, ◌≡◌, refl, sym, ◌∙◌, ap, arith, Bool, List, [], ◌++◌, ◌&&◌, leb,
}
use iot_server.Prelude.Lists.{length, take, drop, length-take, take-drop, drop-drop, drop_all}
use iot_server.Crud
use iot_server.Crud.{Model}

-- The bounds that `PageParams` sets on the query parameters.
unfoldable pub valid_page : ℕ → ℕ → Bool
valid_page offset limit = leb 1 limit && leb limit 100

module _ {T V C P : Type 0} (m : Model T V C P) where
  -- The pages from `offset` on that a client reads, one after the other.
  unfoldable pub pages : ℕ → ℕ → ℕ → List T → List T
  unfolding Crud.get_all
  pages zero offset limit rows = []
  pages (suc n) offset limit rows =
      (Crud.get_all m offset limit rows).0 ++ pages n (offset + limit) limit rows

  pages_from :
      (n offset limit : ℕ) (rows : List T)
      → length rows ≤ offset + n * limit
      → pages n offset limit rows ≡ drop offset rows
  unfolding pages Crud.get_all
  pages_from zero offset limit rows h = sym (drop_all offset rows (omega arith))
  pages_from (suc n) offset limit rows h =
      rw (pages_from n (offset + limit) limit rows (omega arith)) (
        ap (λ xs. take limit (drop offset rows) ++ xs) (sym (drop-drop offset limit rows))
        ∙ take-drop limit (drop offset rows))

  -- The pages of an unchanged table, read one after the other, are the table, once they are as many as
  -- its rows need; a page has at most `limit` rows, and comes with the number of all rows.
  pub pages_lem :
      (n limit offset : ℕ) (rows : List T)
      → length rows ≤ n * limit
      → (pages n 0 limit rows ≡ rows)
        × (length (Crud.get_all m offset limit rows).0 ≤ limit)
        × ((Crud.get_all m offset limit rows).1 ≡ length rows)
  unfolding Crud.get_all
  pages_lem n limit offset rows h = (
    pages_from n 0 limit rows (omega arith),
    omega (arith, length-take limit (drop offset rows)),
    refl,
  )

-- ===== src/Journal/Queries.antt =====
-- internal/journal/journal.go: the queries. `fault` is what the driver itself may fail with.
use snowdeploy.Base.{
  ℕ, zero, suc, Text, lit, ◌==◌, is_empty, eqb, ltb, Bool, not, ◌&&◌, ◌||◌, List, [], ◌∷◌, ◌++◌,
  filter, take, Option, none, some, Error, wrap, no_healthy_deploy, Result, ok, err, if◌then◌else◌,
}
use snowdeploy.Base.Int.{ℤ, pos, negsuc}
use snowdeploy.Journal.Defs.{Entry, is_healthy}
use snowdeploy.Journal.Table.{Table, is_unfinished}

abbrev pub time : Option ℕ → ℕ
time none = 0
time (some t) = t

-- Newer first: started_at DESC, id DESC.
abbrev pub is_newer : Entry → Entry → Bool
is_newer a b =
    ltb (time b.started_at) (time a.started_at)
    || (eqb (time a.started_at) (time b.started_at) && ltb b.id a.id)

-- Older first: started_at ASC, id ASC.
abbrev pub is_older : Entry → Entry → Bool
is_older a b = is_newer b a

-- ORDER BY
unfoldable pub insert_by : (Entry → Entry → Bool) → Entry → List Entry → List Entry
insert_by before e [] = e ∷ []
insert_by before e (f ∷ fs) =
    let rest = insert_by before e fs in if before f e then f ∷ rest else e ∷ f ∷ fs

unfoldable pub order_by : (Entry → Entry → Bool) → List Entry → List Entry
unfolding insert_by
order_by before [] = []
order_by before (e ∷ es) = insert_by before e (order_by before es)

-- LIMIT of a number that is not positive: 20.
abbrev pub limit : ℤ → ℕ
limit (pos zero) = 20
limit (pos (suc n)) = suc n
limit (negsuc n) = 20

unfoldable pub recent : Option Error → Text → ℤ → Table → Result (List Entry)
unfolding order_by
recent (some f) service n t =
    err (wrap (lit "read journal for " ++ service ++ lit ": " ++ f.text) f)
recent none service n t =
    ok (take (limit n) (order_by is_newer (filter (λ e. e.service == service) t.rows)))

unfoldable pub unfinished : Option Error → Table → Result (List Entry)
unfolding order_by
unfinished (some f) t = err (wrap (lit "read unfinished journal entries: " ++ f.text) f)
unfinished none t = ok (order_by is_older (filter is_unfinished t.rows))

abbrev pub healthy_of : Text → Entry → Bool
healthy_of service e = e.service == service && is_healthy e.state && not (is_empty e.new_digest)

abbrev pub first_digest : List Entry → Error → Result Text
first_digest [] missing = err missing
first_digest (e ∷ es) missing = ok e.new_digest

unfoldable pub last_healthy_digest : Option Error → Text → Table → Result Text
unfolding order_by
last_healthy_digest (some f) service t =
    err (wrap (lit "read last healthy digest for " ++ service ++ lit ": " ++ f.text) f)
last_healthy_digest none service t =
    first_digest (order_by is_newer (filter (healthy_of service) t.rows)) (record {
      text = service ++ lit ": no healthy deploy recorded for service";
      chain = no_healthy_deploy ∷ [];
    })

unfoldable pub previous_healthy_digest : Option Error → Text → Text → Table → Result Text
unfolding order_by
previous_healthy_digest (some f) service not_digest t =
    err (wrap (lit "read previous healthy digest for " ++ service ++ lit ": " ++ f.text) f)
previous_healthy_digest none service not_digest t =
    first_digest
      (order_by is_newer
        (filter (λ e. healthy_of service e && not (e.new_digest == not_digest)) t.rows))
      (record {
        text =
            service
            ++ lit " (other than "
            ++ not_digest
            ++ lit "): no healthy deploy recorded for service";
        chain = no_healthy_deploy ∷ [];
      })

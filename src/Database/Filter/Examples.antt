-- ===== src/Database/Filter/Examples.antt =====
-- Filters that are parsed, and the theorems at them.
use runtime_go.Prelude.{◌≡◌, refl, List, [], ◌∷◌, codes}
use runtime_go.Prelude.Outcome.{ok}
use runtime_go.ContentLine.Line.{equal, upper_byte}
use runtime_go.Icaltime.Date.{equal_fold}
use runtime_go.Database.Filter.{Clause, op_ne, op_ge, parse_filter}
use runtime_go.Database.Filter.RoundTrip.{parse_filter-print_filter}

abbrev two_clauses : List Clause
two_clauses =
    record { column = codes "title"; op = op_ne; value = codes "a != b OR c" }
    ∷ record { column = codes "year"; op = op_ge; value = codes "1990" }
    ∷ []

parse_filter-print_filter_example :
    parse_filter (codes "title != \"a != b OR c\" AND year >= \"1990\"") ≡ ok two_clauses
unfolding equal_fold equal upper_byte
parse_filter-print_filter_example = parse_filter-print_filter two_clauses (
  (
    ((refl, (refl, (refl, (refl, (refl, tt))))), refl, refl),
    (
      λ e. cc,
      (
        λ e. cc,
        (
          λ e. cc,
          (
            λ e. cc,
            (λ e. cc, (λ e. cc, (λ e. cc, (λ e. cc, (λ e. cc, (λ e. cc, (λ e. cc, tt))))))),
          ),
        ),
      ),
    ),
  ),
  (
    (
      ((refl, (refl, (refl, (refl, tt)))), refl, refl),
      (λ e. cc, (λ e. cc, (λ e. cc, (λ e. cc, tt)))),
    ),
    tt,
  ),
)

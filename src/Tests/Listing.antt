-- ===== src/Tests/Listing.antt =====
-- Pages of a listing in the database, with two transactions of one time.
use vaultnuban.Prelude.{List, [], ◌∷◌, some, ◌≡◌, refl, ◌<◌, All}
use mathlib.Core.List.Perm
use vaultnuban.Domain.{Transaction}
use vaultnuban.Postgres.{Database}
use vaultnuban.Postgres.Statements.{list_transactions, page_with}
use vaultnuban.Postgres.Statements.Pages.{read_pages, read_pages-earlier}
use vaultnuban.Memstore.Statements.{page_of}
use vaultnuban.Tests.Collection.{database}
use vaultnuban.Tests.Fixtures.{transaction}

abbrev as_is : List Transaction → List Transaction
as_is rows = rows

abbrev named : Transaction → Transaction
named t = record t { virtual_account_id = some "va-1" }

abbrev first : Transaction
first = record (named transaction) { id = "t1" }

abbrev second : Transaction
second = record (named transaction) { id = "t2" }

abbrev older : Transaction
older = record (named transaction) { id = "t0"; occurred_at = 1 }

abbrev listed : Database
listed = record database { transactions = first ∷ second ∷ older ∷ [] }

second_skipped : read_pages 4 as_is "va-1" 1 "" listed ≡ first ∷ older ∷ []
unfolding read_pages list_transactions page_with page_of
second_skipped = refl

read_pages-earlier_example :
    All (λ t. t.occurred_at < first.occurred_at) (read_pages 4 as_is "va-1" 1 "t1" listed)
read_pages-earlier_example =
    read_pages-earlier as_is (λ rows. Perm.refl rows) 4 "va-1" 1 "t1" listed first
      (refl, (refl, (refl, tt))) refl refl

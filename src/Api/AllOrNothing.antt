-- ===== src/Api/AllOrNothing.antt =====
-- backend/app/api/v1/orders.py: a bulk placement is all or nothing.
use uvipystock.Prelude.{ℕ, ◌≤◌, ◌≡◌, ◌⊎◌, List, none, length}
use uvipystock.Model.{World}
use uvipystock.Model.Rows.{Order}
use uvipystock.Orders.Validate.{OrderCreate}
use uvipystock.Records.Table.{terms_at}
use uvipystock.Records.Rules.{AllStand}
use uvipystock.Records.Placed.{the_rows}
use uvipystock.Records.Inserted.{RowsFor}
use uvipystock.Api.Errors.{Response, responded, internal_error}
use uvipystock.Api.Endpoints.{OrderBulkCreateResponse, all_placed, none_placed}

-- From `n` on no row of the table has the id.
abbrev pub FreeFrom : ℕ → World → Type 0
FreeFrom n w = (id : ℕ) → n ≤ id → terms_at w.orders id ≡ none

-- What is placed: a row for each input, with ids that were free, and all of them stand in the table.
abbrev pub AllPlaced : ℕ → List OrderCreate → World → List Order → World → Type 0
AllPlaced u dtos w os w' =
    ((n : ℕ) × FreeFrom n w × RowsFor u n dtos os) × AllStand (the_rows os) w'

abbrev RowsFromFree : ℕ → List OrderCreate → World → List Order → World → Type 0
RowsFromFree u dtos w os w' = (n : ℕ) × FreeFrom n w × RowsFor u n dtos os

-- All orders are placed, or none: the tables are as they were.
abbrev pub AllOrNothing :
    ℕ → List OrderCreate → World → Response OrderBulkCreateResponse × World → Type 0
AllOrNothing u dtos w (r, w') =
    ((os : List Order) × (r ≡ responded 201 (all_placed (length dtos) os))
      × AllPlaced u dtos w os w')
    ⊎ ((r ≡ responded 201 (none_placed (length dtos))) ⊎ (r ≡ internal_error))
      × (w' ≡ record w { commands = w'.commands })

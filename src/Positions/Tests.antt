-- ===== src/Positions/Tests.antt =====
-- The positions services: a reading order at which the theorems apply.
use Prim.Native.String.{String}
use go_toolkit.Prelude.{ℕ, false, none, List, [], ◌∷◌}
use go_toolkit.Positions.Locators.{Link, flatten, IsNumbering}
use go_toolkit.Positions.Pdf.{Toc}
use go_toolkit.Positions.Epub.{PositionsService, compute_positions}
use go_toolkit.Positions.Epub.Numbering.{compute_positions-IsNumbering}
use go_toolkit.Positions.Epub.Groups.{AreGroups, compute_positions-AreGroups}

abbrev chapter : String → Link
chapter href = record { href = href; media_type = none; title = "" }

abbrev book : List Link
book = chapter "a.xhtml" ∷ chapter "b.xhtml" ∷ []

abbrev three_each : Link → ℕ
three_each link = 3

abbrev no_toc : Toc
no_toc = record { fragment = λ page. "page"; title_of = λ href fragment. none }

compute_positions-IsNumbering_example :
    IsNumbering (flatten (compute_positions three_each false book))
compute_positions-IsNumbering_example = compute_positions-IsNumbering three_each false book

compute_positions-AreGroups_example :
    AreGroups three_each false book (compute_positions three_each false book)
compute_positions-AreGroups_example = compute_positions-AreGroups three_each false book

abbrev service : PositionsService
service = record { reading_order = book; is_fixed = false; positions = [] }

-- ===== src/Docs/Menu/Tests.antt =====
-- The menu of html/menudata.js, as html/menu.js writes it.
use database_system_swe.Base.{true, some, [], ◌≡◌, refl}
use database_system_swe.Docs.Text.{text}
use database_system_swe.Docs.Menu.{make_tree}
use database_system_swe.Docs.Menu.Data.{menudata}
use database_system_swe.Docs.Menu.Read.{lacks, read_tree}
use database_system_swe.Docs.Menu.RoundTrip.{is_clean, rounds, make_tree_read_back}

menudata_clean : is_clean menudata ≡ true
unfolding is_clean lacks
menudata_clean = refl

make_tree_read_back_example :
    read_tree (rounds menudata) (text "../") (make_tree (text "../") menudata) ≡ some (menudata, [])
make_tree_read_back_example = make_tree_read_back (text "../") menudata menudata_clean

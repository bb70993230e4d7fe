-- ===== src/Report/Rendered.antt =====
-- tests/scripts/md-table/main.py: what the template gets, and the program.
use Prim.Native.String.{compare}
use Prim.Native.Nat.{Ordering}
use vagrant_portainer.Base.{String, Bool, true, false, List, [], ◌∷◌, if◌then◌else◌}
use vagrant_portainer.Base.Result.{Error, Result, ok, raise}
use vagrant_portainer.Report.{
  container_manager, network_plugin, operating_system, Row, Pydblite, File, exists, load,
}

-- `a <= b` on texts
abbrev is_before : String → String → Bool
is_before a b = elim (compare a b) [ Ordering.gt ↦ false | _ ↦ true ]

unfoldable pub put_sorted : String → List String → List String
put_sorted a [] = a ∷ []
put_sorted a (b ∷ l) = let rest = put_sorted a l in if is_before a b then a ∷ b ∷ l else b ∷ rest

-- `l.sort()`
unfoldable pub sort : List String → List String
sort [] = []
sort (a ∷ l) = put_sorted a (sort l)

-- What `template.render` is called with.
pub record Table : Type 0 where
  pub container_engines : List String
  pub network_plugins : List String
  pub operating_systems : List String
  pub is_covered : Row → Bool

-- `Data.jinja`, up to the template: what table.md.j2 makes of it is not modelled
unfoldable pub jinja : (b : Pydblite) → b.Db → Table
jinja b d = record {
  container_engines = sort (b.get_unique_ids d container_manager);
  network_plugins = sort (b.get_unique_ids d network_plugin);
  operating_systems = sort (b.get_unique_ids d operating_system);
  is_covered = exists b d;
}

-- The program prints a message and ends with status 2, or raises, or prints what the template makes
-- of the table.
pub data Run : Type 0 where
  not_a_directory : Run
  failed : Error → Run
  printed : Table → Run

abbrev pub print_table : (b : Pydblite) → Result b.Db → Run
print_table b (raise e) = failed e
print_table b (ok d) = printed (jinja b d)

unfoldable pub main : Pydblite → Bool → List File → Run
main b is_dir files = if is_dir then print_table b (load b files) else not_a_directory

-- ===== src/Report/Printed.antt =====
-- tests/scripts/md-table/main.py: what the template of the table gets.
use vagrant_portainer.Base.{String, ◌≡◌, ◌↔◌, true, List}
use vagrant_portainer.Base.Lists.{elem}
use vagrant_portainer.Report.{
  Field, container_manager, network_plugin, operating_system, Row, field, File,
}
use vagrant_portainer.Report.Covered.{Says}
use vagrant_portainer.Report.Rendered.{Table}

-- The names of the table in one field.
abbrev pub Names : List File → Field → List String → Type 0
Names files f names =
    (v : String) → (elem v names ≡ true) ↔ ((r : Row) × Says files r × (field r f ≡ v))

-- The table is that of the files.
pub record IsTable (files : List File) (t : Table) : Type 0 where
  pub container_engines-Names : Names files container_manager t.container_engines
  pub network_plugins-Names : Names files network_plugin t.network_plugins
  pub operating_systems-Names : Names files operating_system t.operating_systems
  pub covered : (r : Row) → (t.is_covered r ≡ true) ↔ Says files r

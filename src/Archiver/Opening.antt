-- ===== src/Archiver/Opening.antt =====
-- archiver/orm_archiver.go, the two constructors from a configuration. The drivers of gorm are
-- parameters.
use nodekit_seq.Prelude.{ℕ, ◌+◌, ◌&&◌, false, [], ◌∷◌, map, Bytes, bytes_eq, leb, if◌then◌else◌}
use nodekit_seq.Outcome.{Outcome, then_outcome}
use nodekit_seq.Config.{ArchiverConfig}

-- Opening a database by its DSN, and `AutoMigrate` of the table. A failed migration is `panic`, since
-- `log.Fatalf` ends the process.
pub record Drivers (D : Type 0) : Type 0 where
  pub open_postgres : Bytes → Outcome D
  pub open_sqlite : Bytes → Outcome D
  pub auto_migrate : D → Outcome D

-- `strings.ToLower` on an ASCII letter.
abbrev pub to_lower : ℕ → ℕ
to_lower b = if leb 0x41 b && leb b 0x5A then b + 0x20 else b

abbrev pub postgresql_name : Bytes
postgresql_name = 0x70 ∷ 0x6F ∷ 0x73 ∷ 0x74 ∷ 0x67 ∷ 0x72 ∷ 0x65 ∷ 0x73 ∷ 0x71 ∷ 0x6C ∷ []

abbrev pub sqlite_name : Bytes
sqlite_name = 0x73 ∷ 0x71 ∷ 0x6C ∷ 0x69 ∷ 0x74 ∷ 0x65 ∷ []

-- "default.db".
abbrev pub default_dsn : Bytes
default_dsn = 0x64 ∷ 0x65 ∷ 0x66 ∷ 0x61 ∷ 0x75 ∷ 0x6C ∷ 0x74 ∷ 0x2E ∷ 0x64 ∷ 0x62 ∷ []

module _ {D : Type 0} (drivers : Drivers D) where
  open drivers use {open_postgres, open_sqlite, auto_migrate}

  abbrev pub new_orm_archiver : D → Outcome D
  new_orm_archiver db = auto_migrate db

  abbrev pub orm_archiver_from_config : ArchiverConfig → Outcome D
  orm_archiver_from_config conf =
      let kind = map to_lower conf.archiver_type in
      if bytes_eq kind postgresql_name
      then then_outcome (open_postgres conf.dsn) new_orm_archiver
      else if bytes_eq kind sqlite_name
      then then_outcome (open_sqlite conf.dsn) new_orm_archiver
      else then_outcome (open_sqlite default_dsn) new_orm_archiver

  abbrev pub orm_archiver_from_config_bytes :
      (Bytes → ArchiverConfig → Outcome ArchiverConfig) → Bytes → Outcome D
  orm_archiver_from_config_bytes json_unmarshal config_bytes =
      then_outcome
        (json_unmarshal config_bytes (record { enabled = false; archiver_type = []; dsn = [] }))
        orm_archiver_from_config

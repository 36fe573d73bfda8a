-- ===== src/Server/Start.antt =====
-- The start of the program.
use woeful.Base.{ℕ, ◌≡◌, ◌⊎◌, Bool, true, false, Option, none, some, List, [], ◌∷◌, Bytes}
use woeful.Config.{BlockType, WoefulConfig, unexpected, Tinyxml, read_config}
use woeful.Config.Elements.{ConfigOf, ports_of}
use woeful.Server.Main.{Outcome, failed, no_port, listening, failed_to_bind}

-- The outcome of a start with this port, or with none.
abbrev pub ListensTo : (ℕ → Bool) → Option ℕ → Outcome → Type 0
ListensTo binds none o = o ≡ no_port
ListensTo binds (some port) o =
    ((binds port ≡ true) × (o ≡ listening port))
    ⊎ ((binds port ≡ false) × (o ≡ failed_to_bind port))

-- What `main` comes to where no file is named, and where one is.
abbrev pub StartsFrom :
    (xml : Tinyxml)
    → (ℕ → Bool)
    → ℕ
    → ℕ
    → xml.Element
    → List xml.Element
    → Bytes
    → WoefulConfig
    → Outcome
    → Type 0
StartsFrom xml binds fuel num_port root es [] conf o =
    (conf.block_type ≡ BlockType.block_none)
    × (conf.block_members ≡ [])
    × (conf.port_number ≡ some num_port)
    × ListensTo binds (some num_port) o
StartsFrom xml binds fuel num_port root es (c ∷ cs) conf o =
    ((e : Bytes) × (read_config xml fuel (c ∷ cs) ≡ some (unexpected e)) × (o ≡ failed e))
    ⊎ (ConfigOf xml root es conf × ListensTo binds (ports_of xml es none) o)

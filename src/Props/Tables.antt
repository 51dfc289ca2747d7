-- ===== src/Props/Tables.antt =====
-- reborn_protocol/props.py: the wire forms, and the tables of properties. A descriptor's `name` is
-- left out: it stands only in the message of an exception that is not reached.
use reborn_protocol.Base.{
  ℕ, suc, zero, ◌+◌, List, [], ◌∷◌, ◌++◌, Option, none, some, ◌==◌, if◌then◌else◌,
}

-- class Wire
pub data Wire : Type 0 where
  gbyte raw string longstring void tile halftile tilez pixel colors effectcolors swordpower
        powerimage headgif elorating attachnpc imagepart :
      Wire

pub record PropDesc : Type 0 where
  pub id : ℕ
  pub wire : Wire
  pub width : ℕ
  pub bias : ℕ

-- `_desc`, with neither width nor bias, with a width, and with a bias.
abbrev pub desc : ℕ → Wire → PropDesc
desc id wire = record { id = id; wire = wire; width = 0; bias = 0 }

abbrev wide : ℕ → Wire → ℕ → PropDesc
wide id wire width = record { id = id; wire = wire; width = width; bias = 0 }

abbrev biased : ℕ → Wire → ℕ → PropDesc
biased id wire bias = record { id = id; wire = wire; width = 0; bias = bias }

-- `count` strings from an id on: `_gattribs`.
abbrev gattribs : ℕ → ℕ → List PropDesc
gattribs first_id zero = []
gattribs first_id (suc count) = desc first_id string ∷ gattribs (first_id + 1) count

-- `Wire.GBYTE` of one byte, from an id on: the SAVE properties.
abbrev saves : ℕ → ℕ → List PropDesc
saves first_id zero = []
saves first_id (suc count) = wide first_id gbyte 1 ∷ saves (first_id + 1) count

-- `table.get(id)`; no id stands twice in a table.
pub find_desc : List PropDesc → ℕ → Option PropDesc
find_desc [] id = none
find_desc (d ∷ table) id = if d.id == id then some d else find_desc table id

unfoldable pub player_props : List PropDesc
player_props =
    (desc 0 string
      ∷ wide 1 gbyte 1
      ∷ wide 2 gbyte 1
      ∷ wide 3 gbyte 3
      ∷ wide 4 gbyte 1
      ∷ wide 5 gbyte 1
      ∷ wide 6 gbyte 1
      ∷ wide 7 gbyte 1
      ∷ biased 8 swordpower 30
      ∷ biased 9 swordpower 10
      ∷ desc 10 string
      ∷ desc 11 headgif
      ∷ desc 12 string
      ∷ desc 13 colors
      ∷ wide 14 gbyte 2
      ∷ desc 15 tile
      ∷ desc 16 tile
      ∷ wide 17 gbyte 1
      ∷ wide 18 gbyte 1
      ∷ wide 19 gbyte 1
      ∷ desc 20 string
      ∷ desc 21 string
      ∷ wide 22 gbyte 1
      ∷ desc 23 effectcolors
      ∷ wide 24 gbyte 3
      ∷ wide 25 gbyte 2
      ∷ wide 26 gbyte 1
      ∷ wide 27 gbyte 3
      ∷ wide 28 gbyte 3
      ∷ wide 29 gbyte 3
      ∷ wide 30 gbyte 5
      ∷ wide 31 gbyte 3
      ∷ wide 32 gbyte 1
      ∷ wide 33 gbyte 1
      ∷ desc 34 string
      ∷ desc 35 string
      ∷ desc 36 elorating
      ∷ [])
    ++ (gattribs 37 5
        ++ ((desc 42 attachnpc ∷ wide 43 gbyte 1 ∷ wide 44 gbyte 1 ∷ desc 45 tilez ∷ [])
            ++ (gattribs 46 4
                ++ ((wide 50 gbyte 1 ∷ desc 51 void ∷ desc 52 string ∷ wide 53 gbyte 1 ∷ [])
                    ++ (gattribs 54 21
                        ++ ((desc 75 string
                            ∷ wide 76 gbyte 3
                            ∷ wide 77 gbyte 5
                            ∷ desc 78 pixel
                            ∷ desc 79 pixel
                            ∷ desc 80 pixel
                            ∷ wide 81 gbyte 1
                            ∷ desc 82 string
                            ∷ wide 83 gbyte 5
                            ∷ [])))))))

unfoldable pub npc_props : List PropDesc
npc_props =
    (desc 0 string
      ∷ desc 1 longstring
      ∷ desc 2 tile
      ∷ desc 3 tile
      ∷ wide 4 gbyte 1
      ∷ wide 5 gbyte 3
      ∷ wide 6 gbyte 1
      ∷ wide 7 gbyte 1
      ∷ wide 8 gbyte 1
      ∷ wide 9 gbyte 1
      ∷ biased 10 swordpower 30
      ∷ biased 11 swordpower 10
      ∷ desc 12 string
      ∷ wide 13 gbyte 1
      ∷ wide 14 gbyte 1
      ∷ desc 15 string
      ∷ wide 16 raw 2
      ∷ wide 17 gbyte 3
      ∷ wide 18 gbyte 1
      ∷ desc 19 colors
      ∷ desc 20 string
      ∷ desc 21 string
      ∷ desc 22 headgif
      ∷ [])
    ++ (saves 23 10
        ++ ((wide 33 gbyte 1 ∷ desc 34 imagepart ∷ desc 35 string ∷ [])
            ++ (gattribs 36 5
                ++ ((wide 41 gbyte 1 ∷ wide 42 gbyte 1 ∷ desc 43 tilez ∷ [])
                    ++ (gattribs 44 4
                        ++ ((desc 48 void
                              ∷ desc 49 string
                              ∷ desc 50 string
                              ∷ desc 51 string
                              ∷ desc 52 string
                              ∷ [])
                            ++ (gattribs 53 21
                                ++ ((desc 74 longstring
                                    ∷ desc 75 pixel
                                    ∷ desc 76 pixel
                                    ∷ desc 77 pixel
                                    ∷ [])))))))))

unfoldable pub baddy_props : List PropDesc
baddy_props =
    (wide 0 gbyte 1
      ∷ desc 1 halftile
      ∷ desc 2 halftile
      ∷ wide 3 gbyte 1
      ∷ desc 4 powerimage
      ∷ wide 5 gbyte 1
      ∷ wide 6 gbyte 1
      ∷ wide 7 gbyte 1
      ∷ desc 8 string
      ∷ desc 9 string
      ∷ desc 10 string
      ∷ [])

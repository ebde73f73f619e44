-- ===== src/Atop/System/Properties.antt =====
-- getifprop of Qt/FakeAtop/ifprop.c: the properties of an interface by its name.
use practice.Base.{ℕ, if◌then◌else◌, List, [], ◌∷◌}
use practice.Base.Text.{Bytes, same_text}
use practice.Atop.System.Names.{named}

-- struct ifprop; fullduplex and type are characters.
pub record Ifprop : Type 0 where
  pub type : ℕ
  pub name : Bytes
  pub speed : ℕ
  pub fullduplex : ℕ

-- getifprop for a name, over the table that initifprop filled: all of *ifp but the name.
unfoldable pub getifprop : List Ifprop → Bytes → Ifprop
getifprop [] name = record { type = b'?'; name = name; speed = 0; fullduplex = 0 }
getifprop (p ∷ ps) name =
    let rest = getifprop ps name in
    if named p.name
    then (if same_text name p.name then p else rest)
    else record { type = b'?'; name = name; speed = 0; fullduplex = 0 }

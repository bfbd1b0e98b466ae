-- ===== src/PdfObject.antt =====
-- PDF objects as the code reads them: the cases of its type switches over pdfcpu_types.Object. The
-- Go nil is `null`. A dictionary is the list of its entries; a lookup finds the first with the key.
pub mod Keys
pub mod Table
use pdfdebug.Prelude.{ℕ, String, Bool, Option, none, some, List, [], ◌∷◌, str_eq, if◌then◌else◌}
use pdfdebug.Prelude.Int.{ℤ}

mutual
  pub data Object : Type 0 where
    null : Object
    boolean : Bool → Object
    integer : ℤ → Object
    real : String → Object
    name : String → Object
    string_literal : String → Object
    hex_literal : String → Object
    indirect_ref : (number generation : ℕ) → Object
    array : Objects → Object
    dict : Entries → Object
    stream : Entries → Object

  pub data Objects : Type 0 where
    nil : Objects
    cons : Object → Objects → Objects

  pub data Entries : Type 0 where
    end : Entries
    entry : String → Object → Entries → Entries

-- The elements of an array as a list.
abbrev pub elements : Objects → List Object
elements nil = []
elements (cons o os) = o ∷ elements os

-- Dict.Find
unfoldable pub find : String → Entries → Option Object
find key end = none
find key (entry k v rest) = if str_eq k key then some v else find key rest

-- ===== src/OpenApi/Registry/Query/Chosen.antt =====
-- Which documents `DocumentsForLocale` returns.
use kratos_core.Prelude.{String, Option, none, some, List, [], ◌∷◌, if◌then◌else◌, ◌&&◌}
use kratos_core.Prelude.Eq.{◌==◌, string_eq}
use kratos_core.OpenApi.Registry.{Document, Registry}
use kratos_core.OpenApi.Registry.Query.{chosen}

-- The first document with a key in a language, and in the first language that has one.
abbrev pub first_of : String → String → List Document → Option Document
first_of locale key [] = none
first_of locale key (d ∷ rest) =
    if (d.locale == locale) && (d.key == key) then some d else first_of locale key rest

abbrev pub or_else : Option Document → Option Document → Option Document
or_else none o = o
or_else (some d) o = some d

abbrev pub first_in : List String → String → List Document → Option Document
first_in [] key documents = none
first_in (locale ∷ rest) key documents =
    or_else (first_of locale key documents) (first_in rest key documents)

-- The documents of which `choose` gives the language.
abbrev pub keep_chosen : (String → Option Document) → List Document → List Document
keep_chosen choose [] = []
keep_chosen choose (d ∷ rest) =
    let later = keep_chosen choose rest in
    if chosen (choose d.key) d.locale then d ∷ later else later

-- ===== src/Host/SetsserialTests.antt =====
-- Arguments and commands of --setsserial.
use driver_hostmot.Base.{◌≡◌, [], ◌∷◌, codes}
use driver_hostmot.Host.Setsserial.{read_arguments, add_words}
use driver_hostmot.Host.Setsserial.Command.{kept, joined, add_words_lem}
use driver_hostmot.Host.Setsserial.Mode.{Sensible, read_arguments_lem}

read_arguments_lem_example : Sensible (
    read_arguments
      (codes "--setsserial" ∷ codes "card.conf" ∷ codes "set" ∷ codes "nvmaxrpm" ∷ codes "24" ∷ []))
read_arguments_lem_example =
    read_arguments_lem
      (codes "--setsserial" ∷ codes "card.conf" ∷ codes "set" ∷ codes "nvmaxrpm" ∷ codes "24" ∷ [])

add_words_lem_example :
    add_words 0 [] (codes "set" ∷ codes "nvmaxrpm" ∷ codes "24" ∷ [])
    ≡ kept (joined (codes "set" ∷ codes "nvmaxrpm" ∷ codes "24" ∷ []))
add_words_lem_example = add_words_lem (codes "set") (codes "nvmaxrpm") (codes "24" ∷ [])

-- ===== src/Inspector/Reads/Targets.antt =====
-- Finding a command's target keeps what is neutral.
use endstone_blockdata_api.Base.{refl, String, Option, none, some, List, [], ◌∷◌, string_eq}
use endstone_blockdata_api.Nbt.{ItemNbt}
use endstone_blockdata_api.Nbt.Conversion.{to_int, to_dict, get_key}
use endstone_blockdata_api.Model.{BlockLocation}
use endstone_blockdata_api.Inspector.Python.{Python}
use endstone_blockdata_api.Inspector.Session.{Session, Sender, SenderLocation}
use endstone_blockdata_api.Inspector.Triples.{
  Keeps, then-Triple, give-Keeps, uncaught-Keeps, Neutral, refuse-Keeps,
}
use endstone_blockdata_api.Inspector.Targets.{
  take_target, parse_explicit_target, selected_target, resolve_target, select_target,
  remember_target, position_of, sender_position,
}

module _ {World : Type 0} (python : Python) {Kept : Session World → Type 0}
    (neutral : Neutral Kept) where
  take_target-Keeps :
      (message : String) (target : Option BlockLocation)
      → Keeps Kept (take_target python message target)
  unfolding take_target
  take_target-Keeps message none = refuse-Keeps neutral message
  take_target-Keeps message (some target) = give-Keeps target

  pub parse_explicit_target-Keeps :
      (sender : Sender) (args : List String) (usage : String)
      → Keeps Kept (parse_explicit_target python sender args usage)
  unfolding parse_explicit_target
  parse_explicit_target-Keeps sender [] usage = refuse-Keeps neutral _
  parse_explicit_target-Keeps sender (x ∷ []) usage = refuse-Keeps neutral _
  parse_explicit_target-Keeps sender (x ∷ y ∷ []) usage = refuse-Keeps neutral _
  parse_explicit_target-Keeps sender (x ∷ y ∷ z ∷ []) usage = take_target-Keeps _ _
  parse_explicit_target-Keeps sender (x ∷ y ∷ z ∷ w ∷ args) usage = refuse-Keeps neutral _

  pub selected_target-Keeps : (sender : Sender) → Keeps Kept (selected_target python sender)
  unfolding selected_target
  selected_target-Keeps sender = record {
    runs = λ session kept. (take_target-Keeps _ _).runs session kept;
  }

  pub resolve_target-Keeps :
      (sender : Sender) (args : List String) (usage : String)
      → Keeps Kept (resolve_target python sender args usage)
  unfolding resolve_target
  resolve_target-Keeps sender [] usage = selected_target-Keeps sender
  resolve_target-Keeps sender (arg ∷ args) usage = parse_explicit_target-Keeps sender _ usage

  select_target-Keeps :
      (sender : Sender) (target : BlockLocation) → Keeps Kept (select_target python sender target)
  unfolding select_target
  select_target-Keeps sender target = record {
    runs = λ session kept. neutral.plugin session _ (refl, (λ bridge held. held)) kept;
  }

  pub remember_target-Keeps :
      (sender : Sender) (snapshot : ItemNbt) → Keeps Kept (remember_target python sender snapshot)
  unfolding remember_target
  remember_target-Keeps sender snapshot =
      then-Triple (uncaught-Keeps (get_key "location" snapshot)) (λ location_value.
        then-Triple (uncaught-Keeps (to_dict python.convert location_value)) (λ location.
          then-Triple (uncaught-Keeps (get_key "x" location)) (λ vx.
            then-Triple (uncaught-Keeps (to_int python.convert vx)) (λ x.
              then-Triple (uncaught-Keeps (get_key "y" location)) (λ vy.
                then-Triple (uncaught-Keeps (to_int python.convert vy)) (λ y.
                  then-Triple (uncaught-Keeps (get_key "z" location)) (λ vz.
                    then-Triple (uncaught-Keeps (to_int python.convert vz))
                      (λ z. select_target-Keeps sender _))))))))

  position_of-Keeps :
      (sender : Sender) (location : Option SenderLocation)
      → Keeps Kept (position_of python sender location)
  unfolding position_of
  position_of-Keeps sender none = refuse-Keeps neutral _
  position_of-Keeps sender (some location) = give-Keeps _

  pub sender_position-Keeps : (sender : Sender) → Keeps Kept (sender_position python sender)
  unfolding sender_position
  sender_position-Keeps sender = position_of-Keeps sender sender.location

-- ===== src/Stats/Vpc/Exposed.antt =====
-- What happens to an exposed service, with and without room for it.
use ctaudit.Prelude.{◌≡◌, refl, Word, ◌+ʷ◌, true, false, or_else}
use ctaudit.Text.{Str}
use ctaudit.Map.{find, put, str_comparable}
use ctaudit.Stats.Vpc.{ExposedService, Exposures, new_exposed, expose, has_room}

pub expose_room :
    (max : Word) (key : Str) (n : Word) (f : ExposedService → ExposedService) (x : Exposures)
    → has_room max key x ≡ true
    → expose max key n f x
      ≡ record x { services = put key (f (or_else (find key x.services) new_exposed)) x.services }
unfolding expose
expose_room max key n f x e = rw e refl

pub expose_full :
    (max : Word) (key : Str) (n : Word) (f : ExposedService → ExposedService) (x : Exposures)
    → has_room max key x ≡ false
    → expose max key n f x ≡ record x { dropped = x.dropped +ʷ n }
unfolding expose
expose_full max key n f x e = rw e refl

-- ===== src/Usage/Kept.antt =====
-- internal/usage/service.go: the card of a login that the gateway holds.
use clawdh.Base.{◌≢◌}
use clawdh.Usage.Service.{Service, expired, Prepared, shows, asks}

-- A card that is shown at once does not say that the login has expired.
pub Lives : Prepared → Type 0
Lives (shows snapshot ttl) = snapshot.state ≢ expired
Lives (asks c) = Unit

-- ===== src/Tests/Engine.antt =====
-- Runs of kkp/kkp-core/include/kkp/ssl/ssl_engine.hpp on the null cipher.
use kk_proxy.Common.{◌≡◌, ◌↔◌, ◌⊎◌, refl, true, [], is_positive}
use kk_proxy.Ssl.Status.{SslStatus, want_write}
use kk_proxy.Ssl.Status
use kk_proxy.Ssl.Engine.{perform}
use kk_proxy.Ssl.Engine.Perform.{perform_lem}
use kk_proxy.Tests.Toy.{fresh, greet, null_cipher, null_cipher-IsDocumented}

-- The first call writes the greeting, which must be sent before the next one succeeds.
greets : (perform null_cipher greet fresh).0 ≡ want_write
unfolding perform
greets = refl

perform_lem_example :
    (((perform null_cipher greet fresh).0 ≡ Status.ok)
      ↔ ((is_positive (greet fresh).0 ≡ true) × ((perform null_cipher greet fresh).1.out ≡ [])))
    × (((perform null_cipher greet fresh).1.out ≡ [])
        ⊎ ((perform null_cipher greet fresh).0 ≡ want_write))
perform_lem_example = perform_lem null_cipher null_cipher-IsDocumented greet fresh

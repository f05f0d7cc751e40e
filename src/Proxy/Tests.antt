-- ===== src/Proxy/Tests.antt =====
-- Runs of the choice of a proxy, and the theorem on it at concrete entries.
use lxd_pkg_ubuntu.Prelude.{ℕ, ◌≡◌, ◌≢◌, ◌↔◌, refl, false, Bool, List, [], ◌∷◌}
use lxd_pkg_ubuntu.Text.{codes, fields, has_suffix, trim_space, reverse_onto, trim_space_left}
use lxd_pkg_ubuntu.Proxy.{proxied, direct, panicked, use_loop, use_proxy, has_port, cut_last}
use lxd_pkg_ubuntu.Proxy.Bypass.{SomeIn, IsDomain, use_loop_exact}

abbrev remote : List ℕ → Bool
remote _ = false

use_proxy-port : use_proxy remote (codes "web.org:80") (codes ":8080") ≡ panicked
unfolding use_proxy fields trim_space reverse_onto trim_space_left
use_proxy-port = refl

use_proxy-domain : use_proxy remote (codes "www.web.org:80") (codes "a.org, Web.org") ≡ direct
unfolding use_proxy fields trim_space reverse_onto trim_space_left has_suffix
use_proxy-domain = refl

use_proxy-dot : use_proxy remote (codes "web.org:80") (codes ".web.org:80") ≡ direct
unfolding use_proxy fields trim_space reverse_onto trim_space_left has_suffix
use_proxy-dot = refl

use_proxy-other : use_proxy remote (codes "myweb.org:80") (codes "web.org") ≡ proxied
unfolding use_proxy fields trim_space reverse_onto trim_space_left has_suffix
use_proxy-other = refl

use_proxy-brackets : use_proxy remote (codes "[::1]:80") (codes "web.org") ≡ proxied
unfolding use_proxy fields trim_space reverse_onto trim_space_left has_suffix
use_proxy-brackets = refl

use_proxy-bare : use_proxy remote (codes "web.org") (codes "a.org") ≡ direct
unfolding use_proxy
use_proxy-bare = refl

web-IsDomain : IsDomain (codes " Web.org")
unfolding has_port cut_last trim_space reverse_onto trim_space_left
web-IsDomain = record {
  first = 119;
  others = codes "eb.org";
  name = refl;
  no_port = refl;
  no_dot = refl;
}

use_loop_exact_example :
    (use_loop (codes "www.web.org") (codes " Web.org" ∷ []) ≢ panicked)
    × ((use_loop (codes "www.web.org") (codes " Web.org" ∷ []) ≡ direct)
        ↔ SomeIn (codes "www.web.org") (codes " Web.org" ∷ []))
use_loop_exact_example =
    use_loop_exact (codes "www.web.org") (codes " Web.org" ∷ []) (web-IsDomain, tt)

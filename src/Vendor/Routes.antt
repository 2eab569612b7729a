-- ===== src/Vendor/Routes.antt =====
-- The upgrades of mock-vendor/server.js: `route` of the single-port mode, and the two listeners of
-- the two-port mode.
use casuya_live.Common.{String, not, List, [], ◌∷◌, ◌===◌, ◌≡◌, arith, split_on, if◌then◌else◌}

pub data Target : Type 0 where
  to_vendor to_trade destroyed : Target

-- `(req.url || "").split("?")[0]`
abbrev pub path_of : List String → String
path_of [] = ""
path_of (p ∷ _) = p

unfoldable pub route : String → Target
unfolding split_on
route url =
    let p = path_of (split_on b'?' url) in
    if p === "/vendor" then to_vendor else if p === "/trade" then to_trade else destroyed

unfoldable pub vendor_upgrade : String → Target
unfolding split_on
vendor_upgrade url =
    if not (path_of (split_on b'?' url) === "/vendor") then destroyed else to_vendor

unfoldable pub trade_upgrade : String → Target
unfolding split_on
trade_upgrade url = if not (path_of (split_on b'?' url) === "/trade") then destroyed else to_trade

-- What the pair of ports serves: a URL at the port that takes it.
abbrev pub either : Target → Target → Target
either destroyed t = t
either t _ = t

-- The single port sends each URL where the one of the two ports that accepts it would, and destroys
-- exactly what both destroy.
route-upgrades : (url : String) → route url ≡ either (vendor_upgrade url) (trade_upgrade url)
unfolding route vendor_upgrade trade_upgrade
route-upgrades url = ground arith

-- ===== src/Upgrades/Slots.antt =====
-- Addresses out of storage words: `getAdminFromProxyStorage`, and the implementation's slot as
-- `verifyCurrentImplementations` reads it.
pub mod Words
use token_bridge_contracts.Base.{
  ◌-◌, ◌%◌, ◌==◌, ltb, length, List, ◌++◌, Text, codes, substr, substr_from, if◌then◌else◌,
}
use token_bridge_contracts.Upgrades.Chain.{Tx, Env, admin_slot, implementation_slot}

-- `x.length > 42 ? '0x' + x.substr(x.length - 40, 40) : x`
unfoldable pub last_address : Text → Text
last_address x = if ltb 42 (length x) then codes "0x" ++ substr (length x - 40) 40 x else x

unfoldable pub get_admin_from_proxy_storage : Env → List Tx → Text → Text
unfolding last_address
get_admin_from_proxy_storage e txs proxy = last_address (e.storage_at txs proxy admin_slot)

-- An odd number of digits gets a leading zero.
unfoldable pub even_digits : Text → Text
even_digits raw = if length raw % 2 == 1 then codes "0x0" ++ substr_from 2 raw else raw

unfoldable pub get_implementation_from_storage : Env → List Tx → Text → Text
unfolding last_address even_digits
get_implementation_from_storage e txs proxy =
    last_address (e.hexlify (even_digits (e.storage_at txs proxy implementation_slot)))

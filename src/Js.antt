-- ===== src/Js.antt =====
-- The values of the language that the program's messages are made of: what `JSON.parse` can return
-- together with `undefined`, and the conversions that the code applies to them.
--
-- A number of the language is a double, which is not written out here: `Float` names the type and the
-- operations that the code uses of it. `Runtime` names the functions of the platform that the code
-- calls: JSON text, HMAC, base64url, the query of a URL, dates. `Html` is what components render.
mod Values
mod Convert
mod Platform
pub mod Html
unfoldable pub use Values.*
unfoldable pub use Convert.*
unfoldable pub use Platform.*

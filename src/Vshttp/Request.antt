-- ===== src/Vshttp/Request.antt =====
-- The requests and responses of net/http as far as vshttp looks at them, and sanitizeURL.
use vintagestory_go.Base.{ℕ, Bool, Option, none, some, ◌++◌, Text, text, is_empty, if◌then◌else◌}
use vintagestory_go.Vshttp.Errors.{Error}

-- url.URL of an absolute, hierarchical URL; the user is the encoded userinfo.
pub record Url : Type 0 where
  pub scheme : Text
  pub user : Option Text
  pub host : Text
  pub path : Text
  pub raw_query : Text
  pub fragment : Text

user_text : Option Text → Text
user_text none = text ""
user_text (some u) = u ++ text "@"

after_mark : Text → Text → Text
after_mark mark part = if is_empty part then text "" else mark ++ part

-- func (u *URL) String
unfoldable pub url_text : Url → Text
unfolding user_text after_mark
url_text u =
    u.scheme
    ++ text "://"
    ++ user_text u.user
    ++ u.host
    ++ u.path
    ++ after_mark (text "?") u.raw_query
    ++ after_mark (text "#") u.fragment

unfoldable pub sanitize_url : Option Url → Text
unfolding url_text
sanitize_url none = text ""
sanitize_url (some u) = url_text (record u { raw_query = text ""; fragment = text ""; user = none })

pub data Method : Type 0 where
  get head post : Method

abbrev pub method_text : Method → Text
method_text get = text "GET"
method_text head = text "HEAD"
method_text post = text "POST"

pub record Request : Type 0 where
  pub method : Method
  pub url : Option Url
  pub has_body : Bool

-- A body delivers its bytes and then ends, by io.EOF if the fault is `nil`.
pub record Response : Type 0 where
  pub status_code : ℕ
  pub status : Text
  pub content_type : Text
  pub retry_after : Text
  pub content : Text
  pub fault : Error

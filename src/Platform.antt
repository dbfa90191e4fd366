-- ===== src/Platform.antt =====
-- What the client asks of code outside the repository: urllib's URL parser, the socket that picks
-- the route, and the file system.
use visiontak_client.Prelude.{Bool, Option, Text}

pub record Url : Type 0 where
  pub scheme : Text
  -- none, or a host in lower case
  pub hostname : Option Text

pub record Platform : Type 0 where
  -- Whether urllib.parse.urlparse raises ValueError at an address, as for unbalanced brackets
  pub refuses : Text → Bool
  -- What urlparse gives for the other addresses
  pub urlparse : Text → Url
  -- connect() on a datagram socket and getsockname(); none is an OSError
  pub route : Text → Option Text
  -- Path.exists
  pub exists : Text → Bool

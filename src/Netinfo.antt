-- ===== src/Netinfo.antt =====
-- src/visiontak_client/netinfo.py, for an address of the server that urlparse accepts.
use visiontak_client.Prelude.{Option, none, some, [], Text, codes, if◌then◌else◌, is_empty}
use visiontak_client.Platform.{Platform}

-- x or default, on texts
or_else : Text → Text → Text
or_else x default = if is_empty x then default else x

text_or_empty : Option Text → Text
text_or_empty none = []
text_or_empty (some t) = t

unfoldable pub local_ip : Platform → Text → Text
unfolding or_else text_or_empty
local_ip p server_url =
    let host = if is_empty server_url then [] else text_or_empty (p.urlparse server_url).hostname in
    text_or_empty (p.route (or_else host (codes "10.255.255.255")))

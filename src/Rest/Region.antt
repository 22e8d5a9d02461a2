-- ===== src/Rest/Region.antt =====
-- The regions of include/rito/riot_rest_handler.h, and get_host_by_region of
-- src/riot_rest_handler.cpp.
use rito.Common.{Bool, true, false, [], Bytes, codes}

pub data Region : Type 0 where
  none br eune euw jp kr lan las na oce tr ru : Region

unfoldable pub get_host_by_region : Region → Bytes
get_host_by_region none = []
get_host_by_region br = codes "br1.api.riotgames.com"
get_host_by_region eune = codes "eun1.api.riotgames.com"
get_host_by_region euw = codes "euw1.api.riotgames.com"
get_host_by_region jp = codes "jp1.api.riotgames.com"
get_host_by_region kr = codes "kr.api.riotgames.com"
get_host_by_region lan = codes "la1.api.riotgames.com"
get_host_by_region las = codes "la2.api.riotgames.com"
get_host_by_region na = codes "na1.api.riotgames.com"
get_host_by_region oce = codes "oc1.api.riotgames.com"
get_host_by_region tr = codes "tr1.api.riotgames.com"
get_host_by_region ru = codes "ru.api.riotgames.com"

-- `m_region == Region::none`
unfoldable pub is_none : Region → Bool
is_none none = true
is_none _ = false

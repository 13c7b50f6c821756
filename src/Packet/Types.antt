-- ===== src/Packet/Types.antt =====
-- The packet types of Ns2.35Files/packet.h, `static const packet_t PT_...`, as their numbers.
use ant_aodv.Base.{ℕ}

-- `typedef unsigned int packet_t`
abbrev pub PacketT : Type 0
PacketT = ℕ

abbrev pub pt_tcp : PacketT
pt_tcp = 0

abbrev pub pt_udp : PacketT
pt_udp = 1

abbrev pub pt_cbr : PacketT
pt_cbr = 2

abbrev pub pt_audio : PacketT
pt_audio = 3

abbrev pub pt_video : PacketT
pt_video = 4

abbrev pub pt_ack : PacketT
pt_ack = 5

abbrev pub pt_start : PacketT
pt_start = 6

abbrev pub pt_stop : PacketT
pt_stop = 7

abbrev pub pt_prune : PacketT
pt_prune = 8

abbrev pub pt_graft : PacketT
pt_graft = 9

abbrev pub pt_graftack : PacketT
pt_graftack = 10

abbrev pub pt_join : PacketT
pt_join = 11

abbrev pub pt_assert : PacketT
pt_assert = 12

abbrev pub pt_message : PacketT
pt_message = 13

abbrev pub pt_rtcp : PacketT
pt_rtcp = 14

abbrev pub pt_rtp : PacketT
pt_rtp = 15

abbrev pub pt_rtproto_dv : PacketT
pt_rtproto_dv = 16

abbrev pub pt_ctr_mcast_encap : PacketT
pt_ctr_mcast_encap = 17

abbrev pub pt_ctr_mcast_decap : PacketT
pt_ctr_mcast_decap = 18

abbrev pub pt_srm : PacketT
pt_srm = 19

abbrev pub pt_request : PacketT
pt_request = 20

abbrev pub pt_accept : PacketT
pt_accept = 21

abbrev pub pt_confirm : PacketT
pt_confirm = 22

abbrev pub pt_teardown : PacketT
pt_teardown = 23

abbrev pub pt_live : PacketT
pt_live = 24

abbrev pub pt_reject : PacketT
pt_reject = 25

abbrev pub pt_telnet : PacketT
pt_telnet = 26

abbrev pub pt_ftp : PacketT
pt_ftp = 27

abbrev pub pt_pareto : PacketT
pt_pareto = 28

abbrev pub pt_exp : PacketT
pt_exp = 29

abbrev pub pt_inval : PacketT
pt_inval = 30

abbrev pub pt_http : PacketT
pt_http = 31

abbrev pub pt_encapsulated : PacketT
pt_encapsulated = 32

abbrev pub pt_mftp : PacketT
pt_mftp = 33

abbrev pub pt_arp : PacketT
pt_arp = 34

abbrev pub pt_mac : PacketT
pt_mac = 35

abbrev pub pt_tora : PacketT
pt_tora = 36

abbrev pub pt_dsr : PacketT
pt_dsr = 37

abbrev pub pt_aodv : PacketT
pt_aodv = 38

abbrev pub pt_imep : PacketT
pt_imep = 39

abbrev pub pt_rap_data : PacketT
pt_rap_data = 40

abbrev pub pt_rap_ack : PacketT
pt_rap_ack = 41

abbrev pub pt_tfrc : PacketT
pt_tfrc = 42

abbrev pub pt_tfrc_ack : PacketT
pt_tfrc_ack = 43

abbrev pub pt_ping : PacketT
pt_ping = 44

abbrev pub pt_pbc : PacketT
pt_pbc = 45

abbrev pub pt_diff : PacketT
pt_diff = 46

abbrev pub pt_rtproto_ls : PacketT
pt_rtproto_ls = 47

abbrev pub pt_ldp : PacketT
pt_ldp = 48

abbrev pub pt_gaf : PacketT
pt_gaf = 49

abbrev pub pt_realaudio : PacketT
pt_realaudio = 50

abbrev pub pt_pushback : PacketT
pt_pushback = 51

abbrev pub pt_pgm : PacketT
pt_pgm = 52

abbrev pub pt_lms : PacketT
pt_lms = 53

abbrev pub pt_lms_setup : PacketT
pt_lms_setup = 54

abbrev pub pt_sctp : PacketT
pt_sctp = 55

abbrev pub pt_sctp_app1 : PacketT
pt_sctp_app1 = 56

abbrev pub pt_smac : PacketT
pt_smac = 57

abbrev pub pt_xcp : PacketT
pt_xcp = 58

abbrev pub pt_hdlc : PacketT
pt_hdlc = 59

abbrev pub pt_bltrace : PacketT
pt_bltrace = 60

abbrev pub pt_aomdv : PacketT
pt_aomdv = 61

abbrev pub pt_puma : PacketT
pt_puma = 62

abbrev pub pt_dccp : PacketT
pt_dccp = 63

abbrev pub pt_dccp_req : PacketT
pt_dccp_req = 64

abbrev pub pt_dccp_resp : PacketT
pt_dccp_resp = 65

abbrev pub pt_dccp_ack : PacketT
pt_dccp_ack = 66

abbrev pub pt_dccp_data : PacketT
pt_dccp_data = 67

abbrev pub pt_dccp_dataack : PacketT
pt_dccp_dataack = 68

abbrev pub pt_dccp_close : PacketT
pt_dccp_close = 69

abbrev pub pt_dccp_closereq : PacketT
pt_dccp_closereq = 70

abbrev pub pt_dccp_reset : PacketT
pt_dccp_reset = 71

abbrev pub pt_mdart : PacketT
pt_mdart = 72

abbrev pub pt_ant : PacketT
pt_ant = 73

abbrev pub pt_ntype : PacketT
pt_ntype = 74

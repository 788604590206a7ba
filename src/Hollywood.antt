-- ===== src/Hollywood.antt =====
-- Addresses of device registers, from armboot/system/hollywood.h and the head of system/memory.c.
use vwii_nand_tools.Base.{ℕ}

abbrev pub hw_timer : ℕ
hw_timer = 0x0d800010

abbrev pub hw_alarm : ℕ
hw_alarm = 0x0d800014

abbrev pub hw_armirqflag : ℕ
hw_armirqflag = 0x0d800038

abbrev pub hw_armirqmask : ℕ
hw_armirqmask = 0x0d80003c

abbrev pub hw_memmirr : ℕ
hw_memmirr = 0x0d800060

abbrev pub hw_gpio1bout : ℕ
hw_gpio1bout = 0x0d8000c0

abbrev pub hw_gpio1bintflag : ℕ
hw_gpio1bintflag = 0x0d8000d0

abbrev pub hw_gpio1_sense : ℕ
hw_gpio1_sense = 0x00000100

abbrev pub hw_gpio1out : ℕ
hw_gpio1out = 0x0d8000e0

abbrev pub hw_gpio1dir : ℕ
hw_gpio1dir = 0x0d8000e4

abbrev pub hw_gpio1in : ℕ
hw_gpio1in = 0x0d8000e8

abbrev pub hw_gpio1intflag : ℕ
hw_gpio1intflag = 0x0d8000f0

abbrev pub hw_gpio1owner : ℕ
hw_gpio1owner = 0x0d8000fc

abbrev pub hw_resets : ℕ
hw_resets = 0x0d800194

abbrev pub hw_otpcmd : ℕ
hw_otpcmd = 0x0d8001ec

abbrev pub hw_otpdata : ℕ
hw_otpdata = 0x0d8001f0

abbrev pub hw_version : ℕ
hw_version = 0x0d800214

abbrev pub nand_ctrl : ℕ
nand_ctrl = 0x0d010000

abbrev pub nand_conf : ℕ
nand_conf = 0x0d010004

abbrev pub nand_addr0 : ℕ
nand_addr0 = 0x0d010008

abbrev pub nand_addr1 : ℕ
nand_addr1 = 0x0d01000c

abbrev pub nand_data : ℕ
nand_data = 0x0d010010

abbrev pub nand_ecc : ℕ
nand_ecc = 0x0d010014

abbrev pub nand_bank : ℕ
nand_bank = 0x0d010018

abbrev pub nand_unk2 : ℕ
nand_unk2 = 0x0d010030

abbrev pub nand_unk3 : ℕ
nand_unk3 = 0x0d010040

abbrev pub aes_cmd : ℕ
aes_cmd = 0x0d020000

abbrev pub aes_src : ℕ
aes_src = 0x0d020004

abbrev pub aes_dest : ℕ
aes_dest = 0x0d020008

abbrev pub aes_key : ℕ
aes_key = 0x0d02000c

abbrev pub aes_iv : ℕ
aes_iv = 0x0d020010

abbrev pub sdhc_reg_base : ℕ
sdhc_reg_base = 0x0d070000

abbrev pub mem_prot : ℕ
mem_prot = 0x0d8b420a

abbrev pub mem_prot_start : ℕ
mem_prot_start = 0x0d8b420c

abbrev pub mem_prot_end : ℕ
mem_prot_end = 0x0d8b420e

abbrev pub mem_flushreq : ℕ
mem_flushreq = 0x0d8b4228

abbrev pub mem_flushack : ℕ
mem_flushack = 0x0d8b422a

abbrev pub hw_100 : ℕ
hw_100 = 0x0d800100

abbrev pub hw_104 : ℕ
hw_104 = 0x0d800104

abbrev pub hw_108 : ℕ
hw_108 = 0x0d800108

abbrev pub hw_10c : ℕ
hw_10c = 0x0d80010c

abbrev pub hw_110 : ℕ
hw_110 = 0x0d800110

abbrev pub hw_114 : ℕ
hw_114 = 0x0d800114

abbrev pub hw_118 : ℕ
hw_118 = 0x0d800118

abbrev pub hw_11c : ℕ
hw_11c = 0x0d80011c

abbrev pub hw_120 : ℕ
hw_120 = 0x0d800120

abbrev pub hw_124 : ℕ
hw_124 = 0x0d800124

abbrev pub hw_130 : ℕ
hw_130 = 0x0d800130

abbrev pub hw_134 : ℕ
hw_134 = 0x0d800134

abbrev pub hw_138 : ℕ
hw_138 = 0x0d800138

abbrev pub hw_188 : ℕ
hw_188 = 0x0d800188

abbrev pub hw_18c : ℕ
hw_18c = 0x0d80018c
